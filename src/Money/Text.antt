-- ===== src/Money/Text.antt =====
-- The canonical text of an amount, of money.go: Parse with its helpers, and String. `strconv` and
-- `strings` are the standard library; a text is a list of bytes.
pub mod Decimal
pub mod Value
pub mod RoundTrip
pub mod Canonical
pub mod Contract
use jungle_gaming.Prelude.{
  ℕ, zero, suc, ◌+◌, ◌*◌, ◌/◌, ◌%◌, Bool, true, false, ◌&&◌, ◌||◌, not, ◌==◌, ltb, if◌then◌else◌,
  List, [], ◌∷◌, ◌++◌, length, Option, none, some,
}
use jungle_gaming.Prelude.Bytes.{Bytes, is_empty}
use jungle_gaming.Prelude.Int.{ℤ, pos, negsuc, ltb_ℤ, eqb_ℤ}
use jungle_gaming.Prelude.Int64.{quo64, rem64, neg64}
use jungle_gaming.Shared.{Error, Result, ok, err, ◌>>=◌, ◌>>◌, fail_if}
use jungle_gaming.Money.{
  Money, Currency, add, multiply, parse_currency, err_invalid_amount, err_overflow,
}

-- strings.IndexByte, with the two slices around the index.
prepend : ℕ → Option (Bytes × Bytes) → Option (Bytes × Bytes)
prepend c none = none
prepend c (some (before, after)) = some (c ∷ before, after)

unfoldable pub cut_at : ℕ → Bytes → Option (Bytes × Bytes)
unfolding prepend
cut_at separator [] = none
cut_at separator (c ∷ s) = if c == separator then some ([], s) else prepend c (cut_at separator s)

abbrev is_digit : ℕ → Bool
is_digit c = not (ltb c b'0' || ltb b'9' c)

-- requireDigits
unfoldable pub require_digits : Bytes → Result (Unit {0})
require_digits [] = ok tt
require_digits (c ∷ s) =
    if ltb c b'0' || ltb b'9' c then err err_invalid_amount else require_digits s

-- int64(c - '0'), where the subtraction is a byte's.
abbrev pub digit_value : ℕ → ℕ
digit_value c = (c + 208) % 256

-- A failed step is reported with the overflow error, whatever it was.
abbrev or_overflow : {A : Type 0} → Result A → Result A
or_overflow (ok a) = ok a
or_overflow (err e) = err err_overflow

-- The loop of digitsToMinorUnits over the integer part.
unfoldable pub integer_units : ℤ → Bytes → Result ℤ
integer_units minor [] = ok minor
integer_units minor (c ∷ s) = do
  scaled ← or_overflow (multiply minor 10)
  next ← or_overflow (add scaled (pos (digit_value c)))
  integer_units next s

-- The two digits of the fraction; the caller has checked that there are two.
abbrev pub fraction_units : Bytes → ℕ
fraction_units (a ∷ b ∷ s) = digit_value a * 10 + digit_value b
fraction_units _ = 0

-- digitsToMinorUnits
unfoldable pub digits_to_minor_units : Bytes → Bytes → Result ℤ
digits_to_minor_units integer_part fraction_part = do
  minor ← integer_units (pos 0) integer_part
  scaled ← or_overflow (multiply minor 100)
  or_overflow (add scaled (pos (fraction_units fraction_part)))

-- len(integerPart) > 1 && integerPart[0] == '0'
abbrev pub has_leading_zero : Bytes → Bool
has_leading_zero (c ∷ d ∷ s) = c == b'0'
has_leading_zero _ = false

-- The sign, at the end of parseMinorUnits.
unfoldable pub signed : Bool → ℤ → Result ℤ
signed false minor = ok minor
signed true minor = do fail_if (eqb_ℤ minor (pos 0)) err_invalid_amount; ok (neg64 minor)

unfoldable pub parse_parts : Bool → Option (Bytes × Bytes) → Result ℤ
parse_parts negative none = err err_invalid_amount
parse_parts negative (some (integer_part, fraction_part)) = do
  fail_if (not (length fraction_part == 2)) err_invalid_amount
  fail_if (is_empty integer_part) err_invalid_amount
  fail_if (has_leading_zero integer_part) err_invalid_amount
  require_digits integer_part
  require_digits fraction_part
  minor ← digits_to_minor_units integer_part fraction_part
  signed negative minor

unfoldable pub parse_minor_units : Bytes → Result ℤ
parse_minor_units [] = err err_invalid_amount
parse_minor_units (c ∷ s) =
    if c == b'-' then parse_parts true (cut_at b'.' s) else parse_parts false (cut_at b'.' (c ∷ s))

-- money.Parse
unfoldable pub parse : Bytes → Bytes → Result Money
parse amount currency = do
  parsed_currency ← parse_currency currency
  minor ← parse_minor_units amount
  ok (record { minor = minor; currency = parsed_currency })

-- strconv.FormatInt in base 10: the last digit stands behind those of a tenth. A number below the
-- fuel has fewer digits than the fuel.
pub digits : ℕ → ℕ → Bytes
digits zero n = []
digits (suc fuel) n =
    let front = digits fuel (n / 10) in
    if ltb n 10 then (b'0' + n) ∷ [] else front ++ (b'0' + n % 10) ∷ []

unfoldable pub format_uint : ℕ → Bytes
unfolding digits
format_uint n = digits (suc n) n

unfoldable pub format_int : ℤ → Bytes
format_int (pos n) = format_uint n
format_int (negsuc n) = b'-' ∷ format_uint (suc n)

-- What String writes behind the sign.
unfoldable pub write_parts : ℤ → ℤ → Bytes
write_parts quotient remainder =
    format_int quotient
    ++ b'.'
      ∷ (if ltb_ℤ remainder (pos 10) then b'0' ∷ format_int remainder else format_int remainder)

-- (Money).String
unfoldable pub format : ℤ → Bytes
format minor =
    let quotient = quo64 minor 100 in
    let remainder = rem64 minor 100 in
    if ltb_ℤ minor (pos 0)
    then b'-' ∷ write_parts (neg64 quotient) (neg64 remainder)
    else write_parts quotient remainder
