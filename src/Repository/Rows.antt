-- ===== src/Repository/Rows.antt =====
-- The rows of the tables, and their conversion from and to the domain: repository/transaction.go,
-- wallet.go and ledger.go. A UUID column holds the UUID itself, so that its text form, which String
-- writes and ParseID reads, is left out; ParseID's refusal of the nil UUID is kept. The text of a
-- failure code is left out likewise. A nullable column is an `Option`.
use jungle_gaming.Prelude.{if◌then◌else◌, Option, none, some, [], ◌∷◌}
use jungle_gaming.Prelude.Bytes.{Bytes, codes, bytes_eq}
use jungle_gaming.Prelude.Int.{ℤ}
use jungle_gaming.Shared.{Result, ok, err, ◌>>=◌, Uuid, Time, id_is_zero, err_invalid_id}
use jungle_gaming.Money.{parse_currency, from_minor_units}
use jungle_gaming.Wallet.{Wallet, rehydrate}
use jungle_gaming.Ledger.{Entry, direction_text, parse_direction, new_entry}
use jungle_gaming.Wagering.Kind.{kind_text, parse_kind}
use jungle_gaming.Wagering.Status.{status_text, parse_status}
use jungle_gaming.Wagering.Failure.{FailureCode}
use jungle_gaming.Wagering.Transaction.{
  Transaction, FinancialResult, Origin, internal, external, unsupported,
}
use jungle_gaming.Wagering.Transaction.Rehydrate

-- shared.ParseID of a UUID column.
unfoldable pub scan_id : Uuid → Result Uuid
scan_id u = if id_is_zero u then err err_invalid_id else ok u

pub record WalletRow : Type 0 where
  pub id : Uuid
  pub player_id : Uuid
  pub currency : Bytes
  pub balance_minor : ℤ
  pub version : ℤ
  pub created_at : Time
  pub updated_at : Time

-- The arguments of the INSERT of (*WalletRepository).Create.
abbrev pub to_wallet_row : Wallet → WalletRow
to_wallet_row w = record {
  id = w.id;
  player_id = w.player_id;
  currency = w.currency;
  balance_minor = w.balance.minor;
  version = w.version;
  created_at = w.created_at;
  updated_at = w.updated_at;
}

unfoldable pub rehydrate_wallet : WalletRow → Result Wallet
rehydrate_wallet row = do
  id ← scan_id row.id
  player ← scan_id row.player_id
  currency ← parse_currency row.currency
  rehydrate (record {
    id = id;
    player_id = player;
    balance = from_minor_units row.balance_minor currency;
    version = row.version;
    created_at = row.created_at;
    updated_at = row.updated_at;
  })

pub record EntryRow : Type 0 where
  pub id : Uuid
  pub wallet_id : Uuid
  pub transaction_id : Uuid
  pub direction : Bytes
  pub amount_minor : ℤ
  pub currency : Bytes
  pub balance_before_minor : ℤ
  pub balance_after_minor : ℤ
  pub created_at : Time

-- The arguments of the INSERT of (*LedgerRepository).Append.
abbrev pub to_entry_row : Entry → EntryRow
to_entry_row e = record {
  id = e.id;
  wallet_id = e.wallet_id;
  transaction_id = e.transaction_id;
  direction = direction_text e.direction;
  amount_minor = e.amount.minor;
  currency = e.amount.currency;
  balance_before_minor = e.balance_before.minor;
  balance_after_minor = e.balance_after.minor;
  created_at = e.created_at;
}

unfoldable pub scan_ledger_entry : EntryRow → Result Entry
scan_ledger_entry row = do
  entry ← scan_id row.id
  wallet ← scan_id row.wallet_id
  transaction ← scan_id row.transaction_id
  direction ← parse_direction row.direction
  currency ← parse_currency row.currency
  new_entry entry wallet transaction direction (from_minor_units row.amount_minor currency)
      (from_minor_units row.balance_before_minor currency)
      (from_minor_units row.balance_after_minor currency) row.created_at

abbrev pub origin_text : Origin → Bytes
origin_text internal = codes "INTERNAL"
origin_text external = codes "EXTERNAL"
origin_text unsupported = []

-- wagering.Origin(row.origin)
unfoldable pub origin_of : Bytes → Origin
origin_of raw =
    if bytes_eq raw (codes "INTERNAL")
    then internal
    else if bytes_eq raw (codes "EXTERNAL")
    then external
    else unsupported

pub record TransactionRow : Type 0 where
  pub id : Uuid
  pub origin : Bytes
  pub kind : Bytes
  pub status : Bytes
  pub wallet_id : Uuid
  pub player_id : Uuid
  pub amount_minor : ℤ
  pub amount_currency : Bytes
  pub provider_id : Option Bytes
  pub external_id : Option Bytes
  pub idempotency_key : Option Bytes
  pub payload_hash : Option Bytes
  pub round_id : Option Bytes
  pub game_id : Option Bytes
  pub reference_external_id : Option Bytes
  pub reference_id : Option Uuid
  pub failure_code : Option FailureCode
  pub result_balance_minor : Option ℤ
  pub result_balance_currency : Option Bytes
  pub result_wallet_version : Option ℤ
  pub attempt_count : ℤ
  pub next_retry_at : Option Time
  pub created_at : Time
  pub updated_at : Time

abbrev pub optional_text : Bytes → Option Bytes
optional_text [] = none
optional_text (c ∷ s) = some (c ∷ s)

abbrev pub text : Option Bytes → Bytes
text none = []
text (some value) = value

abbrev pub map_option : {A B : Type 0} → (A → B) → Option A → Option B
map_option f none = none
map_option f (some a) = some (f a)

unfoldable pub to_transaction_row : Transaction → TransactionRow
to_transaction_row t = record {
  id = t.id;
  origin = origin_text t.origin;
  kind = kind_text t.kind;
  status = status_text t.status;
  wallet_id = t.wallet_id;
  player_id = t.player_id;
  amount_minor = t.amount.minor;
  amount_currency = t.amount.currency;
  provider_id = optional_text t.provider_id;
  external_id = optional_text t.external_id;
  idempotency_key = optional_text t.idempotency_key;
  payload_hash = optional_text t.payload_hash;
  round_id = optional_text t.round_id;
  game_id = optional_text t.game_id;
  reference_external_id = optional_text t.reference_external_id;
  reference_id = t.reference_id;
  failure_code = t.failure_code;
  result_balance_minor = map_option (λ r. r.balance.minor) t.result;
  result_balance_currency = map_option (λ r. r.balance.currency) t.result;
  result_wallet_version = map_option (λ r. r.wallet_version) t.result;
  attempt_count = t.attempt_count;
  next_retry_at = t.next_retry_at;
  created_at = t.created_at;
  updated_at = t.updated_at;
}

-- The last two conversions of toDomain.
pub scan_reference : Option Uuid → Result (Option Uuid)
unfolding scan_id
scan_reference none = ok none
scan_reference (some u) = do id ← scan_id u; ok (some id)

pub scan_result : Option ℤ → Option Bytes → Option ℤ → Result (Option FinancialResult)
scan_result (some minor) (some currency) (some version) = do
  result_currency ← parse_currency currency
  ok (some (record { balance = from_minor_units minor result_currency; wallet_version = version }))
scan_result _ _ _ = ok none

unfoldable pub to_domain : TransactionRow → Result Transaction
unfolding scan_reference scan_result
to_domain row = do
  id ← scan_id row.id
  wallet_id ← scan_id row.wallet_id
  player_id ← scan_id row.player_id
  kind ← parse_kind row.kind
  status ← parse_status row.status
  currency ← parse_currency row.amount_currency
  reference_id ← scan_reference row.reference_id
  result ←
      scan_result row.result_balance_minor row.result_balance_currency row.result_wallet_version
  Rehydrate.rehydrate (record {
    id = id;
    origin = origin_of row.origin;
    kind = kind;
    wallet_id = wallet_id;
    player_id = player_id;
    amount = from_minor_units row.amount_minor currency;
    status = status;
    provider_id = text row.provider_id;
    external_id = text row.external_id;
    idempotency_key = text row.idempotency_key;
    payload_hash = text row.payload_hash;
    round_id = text row.round_id;
    game_id = text row.game_id;
    reference_external_id = text row.reference_external_id;
    reference_id = reference_id;
    failure_code = row.failure_code;
    result = result;
    attempt_count = row.attempt_count;
    next_retry_at = row.next_retry_at;
    created_at = row.created_at;
    updated_at = row.updated_at;
  })
