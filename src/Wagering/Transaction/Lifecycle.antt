-- ===== src/Wagering/Transaction/Lifecycle.antt =====
-- The life of a transaction: every sequence of method calls that succeed, from its registration on.
use jungle_gaming.Prelude.{◌≡◌, refl, arith, Bool, true, false, ◌||◌, Option, none, some}
use jungle_gaming.Prelude.Int.{ℤ, pos, ◌≤ℤ◌}
use jungle_gaming.Shared.{ok, Uuid, Time}
use jungle_gaming.Wagering.Status.{
  pending_reference, processed, rejected, failed, status_eq, is_terminal,
}
use jungle_gaming.Wagering.Failure.{FailureCode}
use jungle_gaming.Wagering.Transaction.{
  Transaction, FinancialResult, ExternalParams, OpeningParams, new_external,
}
use jungle_gaming.Wagering.Transaction.Machine.{
  mark_processed, mark_pending_reference, schedule_reference_retry, reject, fail, resolve_reference,
  new_processed_opening,
}

abbrev pub is_some {ℓ} : {A : Type ℓ} → Option A → Bool
is_some none = false
is_some (some a) = true

-- What a transaction records agrees with its state, as the CHECK constraints of the table demand.
pub record IsCoherent (t : Transaction) : Type 0 where
  pub result_presence : is_some t.result ≡ status_eq t.status processed
  pub failure_presence :
      is_some t.failure_code ≡ (status_eq t.status rejected || status_eq t.status failed)
  pub retry_presence : is_some t.next_retry_at ≡ status_eq t.status pending_reference
  pub attempts_nonneg : pos 0 ≤ℤ t.attempt_count

-- One successful call of a method.
pub data Step : Transaction → Transaction → Type 0 where
  process :
      (t t' : Transaction) (r : FinancialResult) (now : Time)
      → mark_processed t r now ≡ ok t'
      → Step t t'
  wait : (t t' : Transaction) (now : Time) → mark_pending_reference t now ≡ ok t' → Step t t'
  retry :
      (t t' : Transaction) (attempts : ℤ) (later now : Time)
      → schedule_reference_retry t attempts later now ≡ ok t'
      → Step t t'
  refuse :
      (t t' : Transaction) (code : Option FailureCode) (now : Time)
      → reject t code now ≡ ok t'
      → Step t t'
  break :
      (t t' : Transaction) (code : Option FailureCode) (now : Time)
      → fail t code now ≡ ok t'
      → Step t t'
  resolve :
      (t t' : Transaction) (reference : Uuid) (now : Time)
      → resolve_reference t reference now ≡ ok t'
      → Step t t'

pub data Reach (s : Transaction) : Transaction → Type 0 where
  here : Reach s s
  next : {t u : Transaction} → Reach s t → Step t u → Reach s u

-- A method call that succeeds keeps the record coherent.
pub Step-IsCoherent : {t u : Transaction} → Step t u → IsCoherent t → IsCoherent u
unfolding mark_processed mark_pending_reference schedule_reference_retry reject fail
    resolve_reference
Step-IsCoherent (process t t' r now e) c = ground arith
Step-IsCoherent (wait t t' now e) c = ground arith
Step-IsCoherent (retry t t' attempts later now e) c = ground arith
Step-IsCoherent (refuse t t' code now e) c = ground arith
Step-IsCoherent (break t t' code now e) c = ground arith
Step-IsCoherent (resolve t t' reference now e) c = ground arith

-- What identifies the operation, and its input.
pub record IsSameOperation (t u : Transaction) : Type 0 where
  pub same_id : u.id ≡ t.id
  pub same_origin : u.origin ≡ t.origin
  pub same_kind : u.kind ≡ t.kind
  pub same_wallet : u.wallet_id ≡ t.wallet_id
  pub same_player : u.player_id ≡ t.player_id
  pub same_amount : u.amount ≡ t.amount
  pub same_provider : u.provider_id ≡ t.provider_id
  pub same_external : u.external_id ≡ t.external_id
  pub same_key : u.idempotency_key ≡ t.idempotency_key
  pub same_hash : u.payload_hash ≡ t.payload_hash
  pub same_round : u.round_id ≡ t.round_id
  pub same_game : u.game_id ≡ t.game_id
  pub same_reference : u.reference_external_id ≡ t.reference_external_id
  pub same_creation : u.created_at ≡ t.created_at

pub Step-IsSameOperation : {t u : Transaction} → Step t u → IsSameOperation t u
unfolding mark_processed mark_pending_reference schedule_reference_retry reject fail
    resolve_reference
Step-IsSameOperation (process t t' r now e) = ground arith
Step-IsSameOperation (wait t t' now e) = ground arith
Step-IsSameOperation (retry t t' attempts later now e) = ground arith
Step-IsSameOperation (refuse t t' code now e) = ground arith
Step-IsSameOperation (break t t' code now e) = ground arith
Step-IsSameOperation (resolve t t' reference now e) = ground arith

-- No method call succeeds on a transaction in a terminal state.
pub terminal_absorbs : {t u : Transaction} → is_terminal t.status ≡ true → ¬ (Step t u)
unfolding mark_processed mark_pending_reference schedule_reference_retry reject fail
    resolve_reference
terminal_absorbs h (process t t' r now e) = ground arith
terminal_absorbs h (wait t t' now e) = ground arith
terminal_absorbs h (retry t t' attempts later now e) = ground arith
terminal_absorbs h (refuse t t' code now e) = ground arith
terminal_absorbs h (break t t' code now e) = ground arith
terminal_absorbs h (resolve t t' reference now e) = ground arith

-- Once a transaction is in a terminal state, no sequence of method calls changes it.
pub Reach-terminal : {s t : Transaction} → is_terminal s.status ≡ true → Reach s t → t ≡ s
Reach-terminal h here = refl
Reach-terminal {s} h (next {t} r st) =
    let same = Reach-terminal h r in absurd (terminal_absorbs (rw same h) st)

Reach-IsCoherent : {s t : Transaction} → IsCoherent s → Reach s t → IsCoherent t
Reach-IsCoherent c here = c
Reach-IsCoherent c (next r st) = Step-IsCoherent st (Reach-IsCoherent c r)

IsSameOperation-trans :
    {s t u : Transaction} → IsSameOperation s t → IsSameOperation t u → IsSameOperation s u
IsSameOperation-trans p q = ground arith

Reach-IsSameOperation : {s t : Transaction} → Reach s t → IsSameOperation s t
Reach-IsSameOperation here = ground arith
Reach-IsSameOperation (next r st) =
    IsSameOperation-trans (Reach-IsSameOperation r) (Step-IsSameOperation st)

new_external-IsCoherent :
    (p : ExternalParams) {s : Transaction} → new_external p ≡ ok s → IsCoherent s
unfolding new_external
new_external-IsCoherent p e = ground arith

-- A registered operation of a provider is coherent after any sequence of method calls, and its identity
-- and input never change.
pub external_life :
    (p : ExternalParams) (s t : Transaction)
    → new_external p ≡ ok s
    → Reach s t
    → IsCoherent t × IsSameOperation s t
external_life p s t e r =
    (Reach-IsCoherent (new_external-IsCoherent p e) r, Reach-IsSameOperation r)

-- The opening of a wallet is born processed, coherent, with its result, and accepts no further call.
pub opening_is_final :
    (p : OpeningParams) (r : FinancialResult) (s t : Transaction)
    → new_processed_opening p r ≡ ok s
    → Reach s t
    → (s.status ≡ processed) × IsCoherent s × (s.result ≡ some r) × (t ≡ s)
unfolding new_processed_opening
opening_is_final p r s t e reach =
    let done : is_terminal s.status ≡ true = ground arith in
    (ground arith, ground arith, ground arith, Reach-terminal done reach)
