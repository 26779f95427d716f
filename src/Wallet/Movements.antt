-- ===== src/Wallet/Movements.antt =====
-- What a movement does to a wallet: the exact new balance, the version, and the invariant.
use jungle_gaming.Prelude.{◌≡◌, ◌≢◌, arith, not, if◌then◌else◌, false}
use jungle_gaming.Prelude.Bytes.{bytes_eq, eq_of_bytes_eq, bytes_eq_refl, is_empty}
use jungle_gaming.Prelude.Int.{ℤ, pos, ◌+ℤ◌, ◌-ℤ◌, ◌≤ℤ◌, ◌<ℤ◌, ltb_ℤ, +ℤ_parts, -ℤ_parts}
use jungle_gaming.Prelude.Int64.{IsInt64, in_int64, max_int64, add64, add64_lem}
use jungle_gaming.Shared.{ok, err, Time, time_is_zero}
use jungle_gaming.Money.{
  Money, currency_is_zero, is_positive, err_uninitialized, err_overflow, err_currency_mismatch,
}
use jungle_gaming.Money.Sums.{add_money_lem, sub_money_lem}
use jungle_gaming.Wallet.{
  Wallet, Movement, credit, debit, err_non_positive_movement, err_invalid_state,
  err_insufficient_funds, apply_movement,
}

-- The invariant of the aggregate.
pub record IsValid (w : Wallet) : Type 0 where
  pub id_set : w.id ≢ 0
  pub player_set : w.player_id ≢ 0
  pub currency_set : is_empty w.currency ≡ false
  pub one_currency : w.balance.currency ≡ w.currency
  pub balance_nonneg : pos 0 ≤ℤ w.balance.minor
  pub balance_int64 : IsInt64 w.balance.minor
  pub version_positive : pos 1 ≤ℤ w.version
  pub created_set : w.created_at ≢ 0
  pub updated_set : w.updated_at ≢ 0

-- The wallet and the movement that a change of the balance to `after` leaves.
abbrev pub moved : Wallet → Money → ℤ → Time → Wallet × Movement
moved w amount after now =
    apply_movement w amount w.balance (record { minor = after; currency = w.balance.currency }) now

module _ (w : Wallet) (amount : Money) (now : Time) (v : IsValid w) (h : IsInt64 amount.minor) where
  -- What Credit of a valid wallet by an int64 amount returns on every branch: it refuses an amount with no currency, of another currency
  -- than the wallet's or not positive, and an unset instant; else it adds the amount exactly, or
  -- reports the overflow if the sum is no int64.
  pub credit_lem : credit w amount now ≡ (
      if currency_is_zero amount.currency
      then err err_uninitialized
      else if not (bytes_eq amount.currency w.currency)
      then err err_currency_mismatch
      else if not (is_positive amount)
      then err err_non_positive_movement
      else if time_is_zero now
      then err err_invalid_state
      else if in_int64 (w.balance.minor +ℤ amount.minor)
      then ok (moved w amount (w.balance.minor +ℤ amount.minor) now)
      else err err_overflow)
  unfolding credit
  credit_lem = ground (
    arith,
    add_money_lem w.balance amount v.balance_int64 h,
    eq_of_bytes_eq amount.currency w.currency,
    bytes_eq_refl amount.currency,
  )

  -- What Debit of a valid wallet by an int64 amount returns on every branch: as Credit, but a debit of more than the balance is refused for
  -- insufficient funds, any other is subtracted exactly, and no overflow is possible.
  pub debit_lem : debit w amount now ≡ (
      if currency_is_zero amount.currency
      then err err_uninitialized
      else if not (bytes_eq amount.currency w.currency)
      then err err_currency_mismatch
      else if not (is_positive amount)
      then err err_non_positive_movement
      else if time_is_zero now
      then err err_invalid_state
      else if ltb_ℤ w.balance.minor amount.minor
      then err err_insufficient_funds
      else ok (moved w amount (w.balance.minor -ℤ amount.minor) now))
  unfolding debit
  debit_lem = ground (
    arith,
    sub_money_lem w.balance amount v.balance_int64 h,
    -ℤ_parts w.balance.minor amount.minor,
    eq_of_bytes_eq amount.currency w.currency,
    bytes_eq_refl amount.currency,
  )

-- What a successful movement leaves alone, and what it reports.
pub record IsReported (w : Wallet) (amount : Money) (w' : Wallet) (m : Movement) : Type 0 where
  pub same_id : w'.id ≡ w.id
  pub same_player : w'.player_id ≡ w.player_id
  pub same_currency : w'.currency ≡ w.currency
  pub same_creation : w'.created_at ≡ w.created_at
  pub next_version : w'.version ≡ add64 w.version (pos 1)
  pub amount_reported : m.amount ≡ amount
  pub before_reported : m.balance_before ≡ w.balance
  pub after_reported : m.balance_after ≡ w'.balance
  pub version_reported : m.version ≡ w'.version
  pub positive : pos 0 <ℤ amount.minor
  pub currency_checked : amount.currency ≡ w.currency

module _ (w : Wallet) (amount : Money) (now : Time) (v : IsValid w) (h : IsInt64 amount.minor)
    (w' : Wallet) (m : Movement) where
  -- A successful Credit of a valid wallet by an int64 amount adds the amount to the balance exactly,
  -- advances the version, changes nothing else but the instant of the update, and reports the amount,
  -- both balances and the new version; the amount is positive and in the wallet's currency.
  pub credit-IsReported :
      credit w amount now ≡ ok (w', m)
      → IsReported w amount w' m × (w'.balance.minor ≡ w.balance.minor +ℤ amount.minor)
  credit-IsReported e =
      ground (arith, credit_lem w amount now v h, eq_of_bytes_eq amount.currency w.currency)

  -- A successful Debit of a valid wallet by an int64 amount subtracts the amount from the balance
  -- exactly, advances the version, changes nothing else but the instant of the update, and reports the
  -- amount, both balances and the new version; the amount is positive and in the wallet's currency.
  pub debit-IsReported :
      debit w amount now ≡ ok (w', m)
      → IsReported w amount w' m × (w'.balance.minor ≡ w.balance.minor -ℤ amount.minor)
  debit-IsReported e =
      ground (arith, debit_lem w amount now v h, eq_of_bytes_eq amount.currency w.currency)

  -- A successful Credit of a valid wallet by an int64 amount leaves a valid wallet, if the version is
  -- below the largest int64.
  pub credit-IsValid : w.version <ℤ max_int64 → credit w amount now ≡ ok (w', m) → IsValid w'
  credit-IsValid room e = ground (
    arith,
    credit_lem w amount now v h,
    add64_lem w.version (pos 1),
    +ℤ_parts w.version (pos 1),
    +ℤ_parts w.balance.minor amount.minor,
  )

  -- A successful Debit of a valid wallet by an int64 amount leaves a valid wallet, whose balance is not
  -- negative, if the version is below the largest int64.
  pub debit-IsValid : w.version <ℤ max_int64 → debit w amount now ≡ ok (w', m) → IsValid w'
  debit-IsValid room e = ground (
    arith,
    debit_lem w amount now v h,
    add64_lem w.version (pos 1),
    +ℤ_parts w.version (pos 1),
    -ℤ_parts w.balance.minor amount.minor,
  )
