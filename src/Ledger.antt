-- ===== src/Ledger.antt =====
-- internal/domain/ledger/entry.go: the immutable entry of the append-only ledger.
pub mod Equation
mod Examples
use jungle_gaming.Prelude.{Bool, true, false, not, if◌then◌else◌}
use jungle_gaming.Prelude.Bytes.{Bytes, codes, bytes_eq}
use jungle_gaming.Shared.{
  Error, Result, ok, err, domain, validation, invariant, invalid_ledger_direction,
  inconsistent_ledger_entry, ◌>>=◌, ◌>>◌, fail_if, Uuid, id_validate, Time, time_is_zero,
}
use jungle_gaming.Money.{Money, validate, is_positive, is_negative, add_money, sub_money, equal}

abbrev pub err_invalid_direction : Error
err_invalid_direction = domain validation invalid_ledger_direction

abbrev pub err_inconsistent_entry : Error
err_inconsistent_entry = domain invariant inconsistent_ledger_entry

-- Direction: the two constants. Every value of the type in the program is one of them.
pub data Direction : Type 0 where
  debit credit : Direction

-- (Direction).String
abbrev pub direction_text : Direction → Bytes
direction_text debit = codes "DEBIT"
direction_text credit = codes "CREDIT"

unfoldable pub parse_direction : Bytes → Result Direction
parse_direction raw =
    if bytes_eq raw (codes "DEBIT")
    then ok debit
    else if bytes_eq raw (codes "CREDIT")
    then ok credit
    else err err_invalid_direction

pub record Entry : Type 0 where
  pub id : Uuid
  pub wallet_id : Uuid
  pub transaction_id : Uuid
  pub direction : Direction
  pub amount : Money
  pub balance_before : Money
  pub balance_after : Money
  pub created_at : Time

abbrev pub expected_balance : Direction → Money → Money → Result Money
expected_balance credit before amount = add_money before amount
expected_balance debit before amount = sub_money before amount

unfoldable pub require_balance_equation : Direction → Money → Money → Money → Result (Unit {0})
require_balance_equation direction amount before after = do
  expected ← expected_balance direction before amount
  fail_if (not (equal expected after)) err_inconsistent_entry

-- The test of the direction has no counterpart: the type has the two values only.
unfoldable pub new_entry :
    Uuid → Uuid → Uuid → Direction → Money → Money → Money → Time → Result Entry
unfolding id_validate validate require_balance_equation
new_entry id wallet_id transaction_id direction amount balance_before balance_after created_at = do
  id_validate id
  id_validate wallet_id
  id_validate transaction_id
  validate amount
  validate balance_before
  validate balance_after
  fail_if (not (is_positive amount)) err_inconsistent_entry
  require_balance_equation direction amount balance_before balance_after
  fail_if (is_negative balance_after) err_inconsistent_entry
  fail_if (time_is_zero created_at) err_inconsistent_entry
  ok (record {
    id = id;
    wallet_id = wallet_id;
    transaction_id = transaction_id;
    direction = direction;
    amount = amount;
    balance_before = balance_before;
    balance_after = balance_after;
    created_at = created_at;
  })
