-- ===== src/Repository/Tables.antt =====
-- The tables, and what every repository shares: repository/repository.go, application/port/errors.go.
-- A table is the list of its rows, the newest first. A statement runs on the tables and returns its
-- result with the tables that it leaves.
use jungle_gaming.Prelude.{
  ℕ, suc, Bool, true, false, ◌==◌, if◌then◌else◌, Option, none, some, List, [], ◌∷◌,
}
use jungle_gaming.Prelude.Bytes.{Bytes}
use jungle_gaming.Prelude.Int.{ℤ}
use jungle_gaming.Shared.{
  Error, Result, ok, err, domain, caused, external, validation, conflict, not_found,
  persistence_conflict, Uuid, Time,
}
use jungle_gaming.Money.{Money}
use jungle_gaming.Ledger.{Direction}
use jungle_gaming.Wagering.Kind.{Kind}
use jungle_gaming.Wagering.Status.{Status}
use jungle_gaming.Wagering.Failure.{FailureCode}
use jungle_gaming.Repository.Rows.{WalletRow, TransactionRow, EntryRow}

abbrev pub err_not_found : Error
err_not_found = domain validation not_found

abbrev pub err_conflict : Error
err_conflict = domain conflict persistence_conflict

-- translate, of an error with one of the three SQLSTATE codes for a violated constraint.
abbrev pub err_violation : Error
err_violation = caused conflict persistence_conflict (external 0)

-- The integration events of usecase/outbox_events.go, before encoding/json writes them as bytes.
pub data EventData : Type 0 where
  transaction_event :
      (transaction_id wallet_id player_id : Uuid) (provider_id external_id : Bytes) (kind : Kind)
      (status : Status) (failure_code : Option FailureCode) (amount : Money)
      → EventData
  balance_changed :
      (wallet_id transaction_id : Uuid) (direction : Direction)
      (amount balance_before balance_after : Money) (wallet_version : ℤ)
      → EventData

pub data EventType : Type 0 where
  wager_transaction_processed wager_transaction_rejected wallet_balance_changed : EventType
  wager_transaction_pending_reference : EventType

pub data AggregateType : Type 0 where
  wallet_aggregate transaction_aggregate : AggregateType

-- port.OutboxRecord. A lease has its owner and its end together; HasLease and HasPublished are `some`.
pub record OutboxRecord : Type 0 where
  pub id : Uuid
  pub aggregate_type : AggregateType
  pub aggregate_id : Uuid
  pub event_type : EventType
  pub payload : EventData
  pub correlation_id : Bytes
  pub occurred_at : Time
  pub attempts : ℤ
  pub next_attempt_at : Time
  pub locked_by : Option Bytes
  pub locked_until : Option Time
  pub published_at : Option Time

-- port.InboxMessage
pub record InboxMessage : Type 0 where
  pub id : Uuid
  pub consumer_name : Bytes
  pub message_id : Bytes
  pub payload_hash : Bytes
  pub received_at : Time

pub record Db : Type 0 where
  pub wallets : List WalletRow
  pub transactions : List TransactionRow
  pub entries : List EntryRow
  pub inbox : List InboxMessage
  pub outbox : List OutboxRecord

abbrev pub Statement : Type 0 → Type 0
Statement A = Db → Result A × Db

module _ {A : Type 0} where
  -- The first row that a query finds: QueryRow reads no further.
  abbrev pub find_row : (A → Bool) → List A → Option A
  find_row test [] = none
  find_row test (row ∷ rows) = if test row then some row else find_row test rows

  abbrev pub exists_row : (A → Bool) → List A → Bool
  exists_row test [] = false
  exists_row test (row ∷ rows) = if test row then true else exists_row test rows

  -- An UPDATE: every row that fits is replaced.
  abbrev pub update_rows : (A → Bool) → (A → A) → List A → List A
  update_rows test change [] = []
  update_rows test change (row ∷ rows) =
      (if test row then change row else row) ∷ update_rows test change rows

  -- The rows that it reports as affected.
  abbrev pub count_rows : (A → Bool) → List A → ℕ
  count_rows test [] = 0
  count_rows test (row ∷ rows) =
      let rest = count_rows test rows in if test row then suc rest else rest

-- requireSingleRow
abbrev pub require_single_row : ℕ → Result (Unit {0})
require_single_row affected = if affected == 1 then ok tt else err err_not_found

-- scan of one row, or pgx.ErrNoRows as `translate` reports it.
abbrev pub scan_row : {A B : Type 0} → (A → Result B) → Option A → Result B
scan_row scan none = err err_not_found
scan_row scan (some row) = scan row
