-- ===== src/Repository/Transactions.antt =====
-- repository/transaction.go with the constraints of the table `wager_transactions`.
use jungle_gaming.Prelude.{
  Bool, true, false, ◌==◌, ◌&&◌, ◌||◌, not, if◌then◌else◌, Option, none, some, List, ◌∷◌,
}
use jungle_gaming.Prelude.Bytes.{Bytes, codes, bytes_eq}
use jungle_gaming.Prelude.Int.{ℤ, pos, leb_ℤ, ltb_ℤ, eqb_ℤ}
use jungle_gaming.Shared.{Result, ok, err, wrapped, Uuid}
use jungle_gaming.Wagering.Transaction.{Transaction}
use jungle_gaming.Repository.Rows.{TransactionRow, to_transaction_row, to_domain}
use jungle_gaming.Repository.Tables.{
  Db, Statement, find_row, exists_row, update_rows, count_rows, require_single_row, err_not_found,
  err_violation,
}
use jungle_gaming.Repository.Wallets.{is_iso4217}
use jungle_gaming.Repository.Entries.{has_wallet, has_transaction}

abbrev pub is_null : {A : Type 0} → Option A → Bool
is_null none = true
is_null (some a) = false

abbrev iff : Bool → Bool → Bool
iff true b = b
iff false b = not b

abbrev pub has_kind : TransactionRow → Bytes → Bool
has_kind row kind = bytes_eq row.kind kind

abbrev pub has_status : TransactionRow → Bytes → Bool
has_status row status = bytes_eq row.status status

abbrev pub is_external : TransactionRow → Bool
is_external row = bytes_eq row.origin (codes "EXTERNAL")

abbrev pub is_internal : TransactionRow → Bool
is_internal row = bytes_eq row.origin (codes "INTERNAL")

-- kind IN ('REFUND', 'ROLLBACK')
abbrev pub is_reversal_row : TransactionRow → Bool
is_reversal_row row = has_kind row (codes "REFUND") || has_kind row (codes "ROLLBACK")

-- wager_transactions_kind_valid and wager_transactions_status_valid
abbrev valid_enums : TransactionRow → Bool
valid_enums row =
    (has_kind row (codes "OPENING")
      || has_kind row (codes "BET")
      || has_kind row (codes "WIN")
      || has_kind row (codes "LOSS")
      || is_reversal_row row)
    && (has_status row (codes "PENDING")
        || has_status row (codes "PENDING_REFERENCE")
        || has_status row (codes "PROCESSED")
        || has_status row (codes "REJECTED")
        || has_status row (codes "FAILED"))

-- The constraints on the amount and on the reference.
abbrev valid_amount : TransactionRow → Bool
valid_amount row =
    leb_ℤ (pos 0) row.amount_minor
    && is_iso4217 row.amount_currency
    && (if has_kind row (codes "LOSS")
        then eqb_ℤ row.amount_minor (pos 0)
        else ltb_ℤ (pos 0) row.amount_minor)
    && (not (is_reversal_row row) || not (is_null row.reference_external_id))

-- wager_transactions_origin_metadata, which implies wager_transactions_origin_valid.
abbrev valid_origin : TransactionRow → Bool
valid_origin row =
    (is_internal row
      && has_kind row (codes "OPENING")
      && is_null row.provider_id
      && is_null row.external_id
      && is_null row.idempotency_key
      && is_null row.payload_hash
      && is_null row.round_id
      && is_null row.game_id
      && is_null row.reference_external_id
      && is_null row.reference_id)
    || (is_external row
        && not (has_kind row (codes "OPENING"))
        && not (is_null row.provider_id)
        && not (is_null row.external_id)
        && not (is_null row.idempotency_key)
        && not (is_null row.payload_hash)
        && not (is_null row.round_id)
        && not (is_null row.game_id))

abbrev nonneg_or_null : Option ℤ → Bool
nonneg_or_null none = true
nonneg_or_null (some n) = leb_ℤ (pos 0) n

-- The constraints on the failure code, the result and the attempts.
abbrev valid_outcome : TransactionRow → Bool
valid_outcome row =
    iff (has_status row (codes "REJECTED") || has_status row (codes "FAILED"))
      (not (is_null row.failure_code))
    && iff (has_status row (codes "PROCESSED")) (not (is_null row.result_balance_minor))
    && iff (is_null row.result_balance_minor) (is_null row.result_balance_currency)
    && iff (is_null row.result_balance_minor) (is_null row.result_wallet_version)
    && nonneg_or_null row.result_balance_minor
    && leb_ℤ (pos 0) row.attempt_count

unfoldable pub transaction_checks : TransactionRow → Bool
transaction_checks row =
    valid_enums row && valid_amount row && valid_origin row && valid_outcome row

-- Equality of two nullable columns: a comparison with NULL does not hold.
abbrev pub same_text : Option Bytes → Option Bytes → Bool
same_text (some a) (some b) = bytes_eq a b
same_text _ _ = false

abbrev pub same_id : Option Uuid → Option Uuid → Bool
same_id (some a) (some b) = a == b
same_id _ _ = false

abbrev pub is_successful_reversal : TransactionRow → Bool
is_successful_reversal row = is_reversal_row row && has_status row (codes "PROCESSED")

-- The four unique indexes and the primary key.
unfoldable pub transaction_collides : TransactionRow → TransactionRow → Bool
transaction_collides row other =
    other.id == row.id
    || (is_external row
        && is_external other
        && same_text other.provider_id row.provider_id
        && (same_text other.external_id row.external_id
            || same_text other.idempotency_key row.idempotency_key))
    || (has_kind row (codes "OPENING")
        && has_kind other (codes "OPENING")
        && other.wallet_id == row.wallet_id)
    || (is_successful_reversal row
        && is_successful_reversal other
        && same_id other.reference_id row.reference_id
        && bytes_eq other.kind row.kind)

-- REFERENCES wager_transactions (id)
abbrev references_row : Option Uuid → List TransactionRow → Bool
references_row none rows = true
references_row (some id) rows = exists_row (has_transaction id) rows

-- wager_transactions_wallet_currency_fk and the key of the reference.
abbrev has_targets : TransactionRow → List TransactionRow → Db → Bool
has_targets row rows db =
    exists_row (has_wallet row.wallet_id row.amount_currency) db.wallets
    && references_row row.reference_id rows

unfoldable pub create : Transaction → Statement (Unit {0})
create target db =
    let row = to_transaction_row target in
    if transaction_checks row
      && not (exists_row (transaction_collides row) db.transactions)
      && has_targets row (row ∷ db.transactions) db
    then (ok tt, record db { transactions = row ∷ db.transactions })
    else (err err_violation, db)

-- The columns that Update sets.
abbrev pub write_outcome : TransactionRow → TransactionRow → TransactionRow
write_outcome new row = record row {
  status = new.status;
  reference_id = new.reference_id;
  failure_code = new.failure_code;
  result_balance_minor = new.result_balance_minor;
  result_balance_currency = new.result_balance_currency;
  result_wallet_version = new.result_wallet_version;
  attempt_count = new.attempt_count;
  next_retry_at = new.next_retry_at;
  updated_at = new.updated_at;
}

-- The constraints of one written row against the others.
abbrev accepts_update : TransactionRow → Db → Bool
accepts_update row db =
    transaction_checks row
    && not (
        exists_row (λ other. not (other.id == row.id) && transaction_collides row other)
          db.transactions)
    && has_targets row db.transactions db

abbrev pub update_accepted : Option TransactionRow → TransactionRow → Db → Bool
update_accepted none new db = true
update_accepted (some old) new db = accepts_update (write_outcome new old) db

unfoldable pub update : Transaction → Statement (Unit {0})
update target db =
    let new = to_transaction_row target in
    let fits = λ (row : TransactionRow). row.id == target.id in
    if update_accepted (find_row fits db.transactions) new db
    then (
      require_single_row (count_rows fits db.transactions),
      record db { transactions = update_rows fits (write_outcome new) db.transactions },
    )
    else (err err_violation, db)

-- translate of an error that is neither pgx.ErrNoRows nor a violation.
abbrev translated : Result Transaction → Result Transaction
translated (ok t) = ok t
translated (err e) = err (wrapped e)

-- queryOne, with scanTransaction
abbrev pub query_one : Option TransactionRow → Result Transaction
query_one none = err err_not_found
query_one (some row) = translated (to_domain row)

unfoldable pub find_by_id : Uuid → Statement Transaction
find_by_id id db = (query_one (find_row (λ row. row.id == id) db.transactions), db)

abbrev pub by_idempotency_key : Bytes → Bytes → TransactionRow → Bool
by_idempotency_key provider_id key row =
    same_text row.provider_id (some provider_id) && same_text row.idempotency_key (some key)

unfoldable pub find_by_idempotency_key : Bytes → Bytes → Statement Transaction
find_by_idempotency_key provider_id key db =
    (query_one (find_row (by_idempotency_key provider_id key) db.transactions), db)

abbrev pub by_external_id : Bytes → Bytes → TransactionRow → Bool
by_external_id provider_id external_id row =
    same_text row.provider_id (some provider_id) && same_text row.external_id (some external_id)

unfoldable pub find_by_external_id : Bytes → Bytes → Statement Transaction
find_by_external_id provider_id external_id db =
    (query_one (find_row (by_external_id provider_id external_id) db.transactions), db)

abbrev pub reverses : Uuid → TransactionRow → Bool
reverses reference_id row =
    same_id row.reference_id (some reference_id) && is_successful_reversal row

unfoldable pub has_successful_reversal : Uuid → Statement Bool
has_successful_reversal reference_id db =
    (ok (exists_row (reverses reference_id) db.transactions), db)
