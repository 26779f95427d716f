-- ===== src/Money/Sums.antt =====
-- Add and Sub of money.go on whole amounts, and Compare and Negate.
use jungle_gaming.Prelude.{◌≡◌, arith, not, if◌then◌else◌}
use jungle_gaming.Prelude.Bytes.{bytes_eq}
use jungle_gaming.Prelude.Int.{ℤ, ◌+ℤ◌, ◌-ℤ◌}
use jungle_gaming.Prelude.Int64.{IsInt64, in_int64}
use jungle_gaming.Shared.{Result, ok, err}
use jungle_gaming.Money.{
  Money, add_money, sub_money, currency_is_zero, err_uninitialized, err_overflow,
  err_currency_mismatch,
}
use jungle_gaming.Money.Arithmetic.{add_lem, subtract_lem}

-- What a guarded operation on two amounts returns, from the exact number of minor units.
abbrev pub combined : Money → Money → ℤ → Result Money
combined m other exact =
    if currency_is_zero m.currency
    then err err_uninitialized
    else if currency_is_zero other.currency
    then err err_uninitialized
    else if not (bytes_eq m.currency other.currency)
    then err err_currency_mismatch
    else if in_int64 exact
    then ok (record { minor = exact; currency = m.currency })
    else err err_overflow

module _ (m other : Money) (hm : IsInt64 m.minor) (ho : IsInt64 other.minor) where
  pub add_money_lem : add_money m other ≡ combined m other (m.minor +ℤ other.minor)
  unfolding add_money
  add_money_lem = ground (arith, add_lem m.minor other.minor hm ho)

  pub sub_money_lem : sub_money m other ≡ combined m other (m.minor -ℤ other.minor)
  unfolding sub_money
  sub_money_lem = ground (arith, subtract_lem m.minor other.minor hm ho)
