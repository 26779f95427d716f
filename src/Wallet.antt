-- ===== src/Wallet.antt =====
-- internal/domain/wallet/wallet.go: the aggregate that holds a player's balance in one currency. A
-- method that mutates `*Wallet` returns the new wallet; on an error the receiver is unchanged.
pub mod Movements
pub mod Lifecycle
mod Examples
use jungle_gaming.Prelude.{Bool, ◌||◌, not, if◌then◌else◌}
use jungle_gaming.Prelude.Bytes.{bytes_eq}
use jungle_gaming.Prelude.Int.{ℤ, pos, ltb_ℤ}
use jungle_gaming.Prelude.Int64.{add64}
use jungle_gaming.Shared.{
  Error, Result, ok, err, domain, validation, rejection, invariant, insufficient_funds,
  non_positive_movement, negative_initial_balance, invalid_wallet_state, ◌>>=◌, ◌>>◌, fail_if, Uuid,
  id_validate, Time, time_is_zero,
}
use jungle_gaming.Money.{
  Money, Currency, validate, is_negative, is_positive, zero_money, add_money, sub_money,
  err_currency_mismatch,
}

abbrev pub err_insufficient_funds : Error
err_insufficient_funds = domain rejection insufficient_funds

abbrev pub err_non_positive_movement : Error
err_non_positive_movement = domain validation non_positive_movement

abbrev pub err_negative_initial_balance : Error
err_negative_initial_balance = domain validation negative_initial_balance

abbrev pub err_invalid_state : Error
err_invalid_state = domain invariant invalid_wallet_state

abbrev pub initial_version : ℤ
initial_version = pos 1

pub record Wallet : Type 0 where
  pub id : Uuid
  pub player_id : Uuid
  pub currency : Currency
  pub balance : Money
  pub version : ℤ
  pub created_at : Time
  pub updated_at : Time

unfoldable pub open_wallet : Uuid → Uuid → Money → Time → Result Wallet
unfolding id_validate validate
open_wallet id player_id initial_balance now = do
  id_validate id
  id_validate player_id
  validate initial_balance
  fail_if (is_negative initial_balance) err_negative_initial_balance
  fail_if (time_is_zero now) err_invalid_state
  ok (record {
    id = id;
    player_id = player_id;
    currency = initial_balance.currency;
    balance = initial_balance;
    version = initial_version;
    created_at = now;
    updated_at = now;
  })

pub record State : Type 0 where
  pub id : Uuid
  pub player_id : Uuid
  pub balance : Money
  pub version : ℤ
  pub created_at : Time
  pub updated_at : Time

unfoldable pub rehydrate : State → Result Wallet
unfolding id_validate validate
rehydrate s = do
  id_validate s.id
  id_validate s.player_id
  validate s.balance
  fail_if (is_negative s.balance) err_invalid_state
  fail_if (ltb_ℤ s.version initial_version) err_invalid_state
  fail_if (time_is_zero s.created_at || time_is_zero s.updated_at) err_invalid_state
  ok (record {
    id = s.id;
    player_id = s.player_id;
    currency = s.balance.currency;
    balance = s.balance;
    version = s.version;
    created_at = s.created_at;
    updated_at = s.updated_at;
  })

pub record Movement : Type 0 where
  pub amount : Money
  pub balance_before : Money
  pub balance_after : Money
  pub version : ℤ

unfoldable pub opening_movement : Wallet → Movement
opening_movement w = record {
  amount = w.balance;
  balance_before = zero_money w.currency;
  balance_after = w.balance;
  version = w.version;
}

unfoldable pub validate_movement : Wallet → Money → Time → Result (Unit {0})
unfolding validate
validate_movement w amount now = do
  validate amount
  fail_if (not (bytes_eq amount.currency w.currency)) err_currency_mismatch
  fail_if (not (is_positive amount)) err_non_positive_movement
  fail_if (time_is_zero now) err_invalid_state

abbrev pub apply_movement : Wallet → Money → Money → Money → Time → Wallet × Movement
apply_movement w amount before after now =
    let version = add64 w.version (pos 1) in
    (
      record w { balance = after; version = version; updated_at = now },
      record { amount = amount; balance_before = before; balance_after = after; version = version },
    )

unfoldable pub credit : Wallet → Money → Time → Result (Wallet × Movement)
unfolding validate_movement
credit w amount now = do
  validate_movement w amount now
  after ← add_money w.balance amount
  ok (apply_movement w amount w.balance after now)

unfoldable pub debit : Wallet → Money → Time → Result (Wallet × Movement)
unfolding validate_movement
debit w amount now = do
  validate_movement w amount now
  after ← sub_money w.balance amount
  fail_if (is_negative after) err_insufficient_funds
  ok (apply_movement w amount w.balance after now)
