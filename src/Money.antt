-- ===== src/Money.antt =====
-- internal/domain/money: amounts in int64 minor units (money.go) and currency codes (currency.go):
-- the values, their checks and the guarded arithmetic. The text forms are in Text.
pub mod Arithmetic
pub mod Sums
pub mod Text
mod Examples
use jungle_gaming.Prelude.{
  ℕ, Bool, true, false, ◌&&◌, ◌||◌, not, ◌==◌, ltb, leb, if◌then◌else◌, [], ◌∷◌, length,
}
use jungle_gaming.Prelude.Bytes.{Bytes, codes, is_empty, bytes_eq}
use jungle_gaming.Prelude.Int.{ℤ, pos, negsuc, ltb_ℤ, eqb_ℤ}
use jungle_gaming.Prelude.Int64.{max_int64, min_int64, add64, sub64, mul64, neg64, quo64}
use jungle_gaming.Shared.{
  Error, Result, ok, err, domain, validation, rejection, invariant, invalid_amount,
  invalid_currency, currency_mismatch, amount_overflow, uninitialized_money, ◌>>=◌, ◌>>◌, fail_if,
}

abbrev pub err_invalid_amount : Error
err_invalid_amount = domain validation invalid_amount

abbrev pub err_invalid_currency : Error
err_invalid_currency = domain validation invalid_currency

abbrev pub err_currency_mismatch : Error
err_currency_mismatch = domain rejection currency_mismatch

abbrev pub err_overflow : Error
err_overflow = domain validation amount_overflow

abbrev pub err_uninitialized : Error
err_uninitialized = domain invariant uninitialized_money

-- Currency: the empty text is the uninitialised one.
abbrev pub Currency : Type 0
Currency = Bytes

abbrev pub brl : Currency
brl = codes "BRL"

abbrev pub currency_code_length : ℕ
currency_code_length = 3

-- The loop of ParseCurrency over the bytes.
unfoldable pub all_upper : Bytes → Bool
all_upper [] = true
all_upper (c ∷ s) = if ltb c b'A' || ltb b'Z' c then false else all_upper s

unfoldable pub parse_currency : Bytes → Result Currency
unfolding all_upper
parse_currency raw =
    if is_empty raw
    then err err_invalid_currency
    else if not (length raw == currency_code_length)
    then err err_invalid_currency
    else if not (all_upper raw)
    then err err_invalid_currency
    else ok raw

-- (Currency).IsZero
abbrev pub currency_is_zero : Currency → Bool
currency_is_zero c = is_empty c

pub record Money : Type 0 where
  pub minor : ℤ
  pub currency : Currency

-- money.Zero
abbrev pub zero_money : Currency → Money
zero_money c = record { minor = pos 0; currency = c }

-- money.FromMinorUnits
abbrev pub from_minor_units : ℤ → Currency → Money
from_minor_units minor c = record { minor = minor; currency = c }

-- (Money).Validate
unfoldable pub validate : Money → Result (Unit {0})
validate m = fail_if (currency_is_zero m.currency) err_uninitialized

abbrev pub is_zero : Money → Bool
is_zero m = eqb_ℤ m.minor (pos 0)

abbrev pub is_positive : Money → Bool
is_positive m = ltb_ℤ (pos 0) m.minor

abbrev pub is_negative : Money → Bool
is_negative m = ltb_ℤ m.minor (pos 0)

-- The functions add, subtract and multiply of money.go. The guards are int64 expressions too.
unfoldable pub add : ℤ → ℤ → Result ℤ
add a b =
    if (ltb_ℤ (pos 0) b && ltb_ℤ (sub64 max_int64 b) a)
      || (ltb_ℤ b (pos 0) && ltb_ℤ a (sub64 min_int64 b))
    then err err_overflow
    else ok (add64 a b)

unfoldable pub subtract : ℤ → ℤ → Result ℤ
subtract a b =
    if (ltb_ℤ b (pos 0) && ltb_ℤ (add64 max_int64 b) a)
      || (ltb_ℤ (pos 0) b && ltb_ℤ a (add64 min_int64 b))
    then err err_overflow
    else ok (sub64 a b)

-- Its callers give 10 and 100 as the factor.
unfoldable pub multiply : ℤ → ℕ → Result ℤ
multiply a factor =
    if eqb_ℤ a (pos 0)
    then ok (pos 0)
    else if ltb_ℤ (quo64 max_int64 factor) a || ltb_ℤ a (quo64 min_int64 factor)
    then err err_overflow
    else ok (mul64 a (pos factor))

unfoldable pub require_compatible : Money → Money → Result (Unit {0})
unfolding validate
require_compatible m other = do
  validate m
  validate other
  fail_if (not (bytes_eq m.currency other.currency)) err_currency_mismatch

unfoldable pub add_money : Money → Money → Result Money
unfolding require_compatible
add_money m other = do
  require_compatible m other
  sum ← add m.minor other.minor
  ok (record { minor = sum; currency = m.currency })

unfoldable pub sub_money : Money → Money → Result Money
unfolding require_compatible
sub_money m other = do
  require_compatible m other
  difference ← subtract m.minor other.minor
  ok (record { minor = difference; currency = m.currency })

pub negate : Money → Result Money
unfolding validate
negate m = do
  validate m
  fail_if (eqb_ℤ m.minor min_int64) err_overflow
  ok (record { minor = neg64 m.minor; currency = m.currency })

-- (Money).Compare
pub compare_money : Money → Money → Result ℤ
unfolding require_compatible
compare_money m other = do
  require_compatible m other
  ok (
      if ltb_ℤ m.minor other.minor
      then negsuc 0
      else if ltb_ℤ other.minor m.minor
      then pos 1
      else pos 0)

-- (Money).Equal
unfoldable pub equal : Money → Money → Bool
equal m other = eqb_ℤ m.minor other.minor && bytes_eq m.currency other.currency
