-- ===== src/Wagering/Transaction/Stored.antt =====
-- Transactions and their snapshots: Rehydrate of transaction.go against the constructors and methods.
use jungle_gaming.Prelude.{◌≡◌, ◌≢◌, refl, arith, true, false, [], ◌∷◌}
use jungle_gaming.Prelude.Bytes.{Bytes, is_empty}
use jungle_gaming.Shared.{ok}
use jungle_gaming.Wagering.Kind.{
  Kind, opening, bet, win, loss, refund, rollback, is_opening, parse_kind-kind_text,
  parse_external_kind_lem, validate_amount-currency,
}
use jungle_gaming.Wagering.Status.{parse_status-status_text}
use jungle_gaming.Wagering.Transaction.{
  Origin, internal, external, unsupported, Transaction, ExternalParams, new_external,
}
use jungle_gaming.Wagering.Transaction.Machine.{
  mark_processed, mark_pending_reference, schedule_reference_retry, reject, fail, resolve_reference,
}
use jungle_gaming.Wagering.Transaction.Rehydrate.{State, is_consistent, rehydrate}
use jungle_gaming.Wagering.Transaction.Lifecycle.{
  Step, process, wait, retry, refuse, break, resolve, Reach, here, next,
}

-- The snapshot of a transaction.
abbrev pub state_of : Transaction → State
state_of t = record {
  id = t.id;
  origin = t.origin;
  kind = t.kind;
  wallet_id = t.wallet_id;
  player_id = t.player_id;
  amount = t.amount;
  status = t.status;
  provider_id = t.provider_id;
  external_id = t.external_id;
  idempotency_key = t.idempotency_key;
  payload_hash = t.payload_hash;
  round_id = t.round_id;
  game_id = t.game_id;
  reference_external_id = t.reference_external_id;
  reference_id = t.reference_id;
  failure_code = t.failure_code;
  result = t.result;
  attempt_count = t.attempt_count;
  next_retry_at = t.next_retry_at;
  created_at = t.created_at;
  updated_at = t.updated_at;
}

-- What the origin of a snapshot demands: an internal one is an opening without any datum of a provider, an
-- external one is none and has the data that identify it.
abbrev pub IsConsistent : Origin → State → Type 0
IsConsistent internal s =
    (s.kind ≡ opening)
    × (s.provider_id ≡ [])
    × (s.external_id ≡ [])
    × (s.idempotency_key ≡ [])
    × (s.payload_hash ≡ [])
    × (s.round_id ≡ [])
    × (s.game_id ≡ [])
    × (s.reference_external_id ≡ [])
IsConsistent external s =
    (s.kind ≢ opening)
    × (s.provider_id ≢ [])
    × (s.external_id ≢ [])
    × (s.idempotency_key ≢ [])
    × (s.payload_hash ≢ [])
IsConsistent unsupported s = ⊥

pub record IsSnapshot (s : State) : Type 0 where
  pub id_set : s.id ≢ 0
  pub wallet_set : s.wallet_id ≢ 0
  pub player_set : s.player_id ≢ 0
  pub currency_set : s.amount.currency ≢ []
  pub consistent : IsConsistent s.origin s
  pub created_set : s.created_at ≢ 0
  pub updated_set : s.updated_at ≢ 0

opening_kind : (k : Kind) → is_opening k ≡ true → k ≡ opening
opening_kind opening h = refl
opening_kind bet h = cc
opening_kind win h = cc
opening_kind loss h = cc
opening_kind refund h = cc
opening_kind rollback h = cc

empty_text : (s : Bytes) → is_empty s ≡ true → s ≡ []
empty_text [] h = refl
empty_text (c ∷ s) h = cc

set_text : (s : Bytes) → is_empty s ≡ false → s ≢ []
set_text [] h e = cc
set_text (c ∷ s) h e = cc

other_kind : (k : Kind) → is_opening k ≡ false → k ≢ opening
other_kind k h e = let x = rw e at h in cc

consistent_lem : (o : Origin) (s : State) → is_consistent o s ≡ true → IsConsistent o s
consistent_lem internal s h = (
  opening_kind s.kind (ground arith),
  empty_text s.provider_id (ground arith),
  empty_text s.external_id (ground arith),
  empty_text s.idempotency_key (ground arith),
  empty_text s.payload_hash (ground arith),
  empty_text s.round_id (ground arith),
  empty_text s.game_id (ground arith),
  empty_text s.reference_external_id (ground arith),
)
consistent_lem external s h = (
  other_kind s.kind (ground arith),
  set_text s.provider_id (ground arith),
  set_text s.external_id (ground arith),
  set_text s.idempotency_key (ground arith),
  set_text s.payload_hash (ground arith),
)
consistent_lem unsupported s h = cc

pub record IsStorable (t : Transaction) : Type 0 where
  pub id_set : t.id ≢ 0
  pub wallet_set : t.wallet_id ≢ 0
  pub player_set : t.player_id ≢ 0
  pub currency_set : is_empty t.amount.currency ≡ false
  pub consistent : is_consistent t.origin (state_of t) ≡ true
  pub created_set : t.created_at ≢ 0
  pub updated_set : t.updated_at ≢ 0

-- Rehydrate gives a storable transaction back from its snapshot.
pub rehydrate_lem : (t : Transaction) → IsStorable t → rehydrate (state_of t) ≡ ok t
unfolding rehydrate
rehydrate_lem t s =
    rw (parse_kind-kind_text t.kind, parse_status-status_text t.status) (ground arith)

accepted :
    (s : State) (t : Transaction)
    → rehydrate s ≡ ok t
    → (state_of t ≡ s)
      × (is_consistent s.origin s ≡ true)
      × (is_empty s.amount.currency ≡ false)
      × ((s.id ≢ 0) × (s.wallet_id ≢ 0) × (s.player_id ≢ 0))
      × ((s.created_at ≢ 0) × (s.updated_at ≢ 0))
unfolding rehydrate
accepted s t e =
    let e' = rw (parse_kind-kind_text s.kind, parse_status-status_text s.status) at e in
    (ground arith, ground arith, ground arith, ground arith, ground arith)

-- A transaction that Rehydrate returns has every datum of the snapshot, and Rehydrate accepts only
-- snapshots whose identifiers, currency and instants are set, and whose origin is internal, with an
-- opening and no datum of a provider, or external, with another kind, the provider, its identifier of the
-- operation, the key and the hash of the payload.
pub rehydrate_sound :
    (s : State) (t : Transaction) → rehydrate s ≡ ok t → (state_of t ≡ s) × IsSnapshot s
rehydrate_sound s t e =
    let (same, consistent, currency, (id, wallet, player), (made, changed)) = accepted s t e in
    (
      same,
      record {
        id_set = id;
        wallet_set = wallet;
        player_set = player;
        currency_set = set_text s.amount.currency currency;
        consistent = consistent_lem s.origin s consistent;
        created_set = made;
        updated_set = changed;
      },
    )

pub new_external-IsStorable :
    (p : ExternalParams) {t : Transaction} → new_external p ≡ ok t → IsStorable t
unfolding new_external
new_external-IsStorable p e =
    ground (arith, parse_external_kind_lem p.kind, validate_amount-currency p.kind p.amount)

pub Step-IsStorable : {t u : Transaction} → Step t u → IsStorable t → IsStorable u
unfolding mark_processed mark_pending_reference schedule_reference_retry reject fail
    resolve_reference
Step-IsStorable (process t t' r now e) c = ground arith
Step-IsStorable (wait t t' now e) c = ground arith
Step-IsStorable (retry t t' attempts later now e) c = ground arith
Step-IsStorable (refuse t t' code now e) c = ground arith
Step-IsStorable (break t t' code now e) c = ground arith
Step-IsStorable (resolve t t' reference now e) c = ground arith

Reach-IsStorable : {s t : Transaction} → IsStorable s → Reach s t → IsStorable t
Reach-IsStorable c here = c
Reach-IsStorable c (next r st) = Step-IsStorable st (Reach-IsStorable c r)

-- Whatever sequence of method calls a registered operation of a provider has been through, Rehydrate
-- gives it back from its snapshot with every datum unchanged.
pub external_stored :
    (p : ExternalParams) (s t : Transaction)
    → new_external p ≡ ok s
    → Reach s t
    → rehydrate (state_of t) ≡ ok t
external_stored p s t e r = rehydrate_lem t (Reach-IsStorable (new_external-IsStorable p e) r)
