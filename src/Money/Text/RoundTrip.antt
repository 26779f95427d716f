-- ===== src/Money/Text/RoundTrip.antt =====
-- parseMinorUnits of money.go on the texts that String writes.
use mathlib.Core.Path.{ap₂}
use native.Mathlib.Decide.{dec_lt}
use jungle_gaming.Prelude.{
  ℕ, suc, ◌+◌, ◌-◌, ◌*◌, ◌/◌, ◌%◌, ◌<◌, ◌≡◌, refl, ap, ◌∙◌, arith, Bool, true, false, [], ◌∷◌, ◌++◌,
  All, some, if◌then◌else◌,
}
use jungle_gaming.Prelude.Bytes.{Bytes, is_empty}
use jungle_gaming.Prelude.Int.{ℤ, pos, negsuc, ltb_ℤ, eqb_ℤ}
use jungle_gaming.Money.{err_overflow}
use jungle_gaming.Prelude.Int64.{
  min_int64, IsInt64, neg64-pos, quo64, rem64, neg64-neg, quo64-negsuc, rem64-negsuc,
}
use jungle_gaming.Shared.{ok, err, ◌>>=◌}
use jungle_gaming.Money.Text.{
  cut_at, parse_parts, parse_minor_units, format_uint, format_int, write_parts, format, signed,
}
use jungle_gaming.Money.Text.Decimal.{
  IsDigit, value, format_uint-digit, format_uint_step, format_uint-IsDecimal,
}
use jungle_gaming.Money.Text.Value.{
  max_units, bounded, digits_to_minor_units_lem, require_digits_lem,
}

abbrev pub two_digits : ℕ → Bytes
two_digits r = (b'0' + r / 10) ∷ (b'0' + r % 10) ∷ []

-- The canonical text of an amount that is not negative.
abbrev pub render : ℕ → Bytes
render n = format_uint (n / 100) ++ b'.' ∷ two_digits (n % 100)

format_uint-two : (r : ℕ) → 9 < r → r < 100 → format_uint r ≡ two_digits r
format_uint-two r h k =
    format_uint_step r h
    ∙ ap (λ t. t ++ (b'0' + r % 10) ∷ []) (format_uint-digit (r / 10) (omega arith))

-- The fraction is written with two digits.
fraction_text :
    (r : ℕ)
    → r < 100
    → (if ltb_ℤ (pos r) (pos 10) then b'0' ∷ format_int (pos r) else format_int (pos r))
      ≡ two_digits r
unfolding format_int
fraction_text r h = elim (dec_lt r 10) [
  | yes k ↦
      let small : ltb_ℤ (pos r) (pos 10) ≡ true = ground arith in
      rw (small, format_uint-digit r k) (ap₂ (λ (a b : ℕ). a ∷ b ∷ []) (omega arith) (omega arith))
  | no k ↦
      let large : ltb_ℤ (pos r) (pos 10) ≡ false = ground arith in
      rw large (format_uint-two r (omega arith) h)
]

write_parts_lem :
    (q r : ℕ) → r < 100 → write_parts (pos q) (pos r) ≡ format_uint q ++ b'.' ∷ two_digits r
unfolding write_parts
write_parts_lem q r h =
    rw (fraction_text r h) (ap (λ t. t ++ b'.' ∷ two_digits r) (unfold format_int in refl))

quo64-pos : (n k : ℕ) → quo64 (pos n) k ≡ pos (n / k)
unfolding quo64
quo64-pos n k = ground arith

rem64-pos : (n k : ℕ) → rem64 (pos n) k ≡ pos (n % k)
unfolding rem64
rem64-pos n k = ground arith

pub format-pos : (n : ℕ) → format (pos n) ≡ render n
unfolding format
format-pos n =
    let positive : ltb_ℤ (pos n) (pos 0) ≡ false = ground arith in
    rw (positive, quo64-pos n 100, rem64-pos n 100)
      (write_parts_lem (n / 100) (n % 100) (omega arith))

pub format-negsuc : (n : ℕ) → n < 9223372036854775808 → format (negsuc n) ≡ b'-' ∷ render (suc n)
unfolding format
format-negsuc n h =
    let negative : ltb_ℤ (negsuc n) (pos 0) ≡ true = ground arith in
    rw
      (
        negative,
        quo64-negsuc n 100,
        rem64-negsuc n 100,
        neg64-neg (suc n / 100) (omega arith),
        neg64-neg (suc n % 100) (omega arith),
      )
      (ap (λ t. b'-' ∷ t) (write_parts_lem (suc n / 100) (suc n % 100) (omega arith)))

pub cut_at-append : (s t : Bytes) → All IsDigit s → cut_at b'.' (s ++ b'.' ∷ t) ≡ some (s, t)
unfolding cut_at
cut_at-append [] t v = refl
cut_at-append (c ∷ s) t (d, v) = ground (arith, cut_at-append s t v)

pub parse_parts_lem :
    (negative : Bool) (n : ℕ)
    → parse_parts negative (cut_at b'.' (render n)) ≡ (bounded n >>= signed negative)
unfolding parse_parts
parse_parts_lem negative n =
    let q = n / 100 in
    let r = n % 100 in
    let v = format_uint-IsDecimal q in
    let da : IsDigit (b'0' + r / 10) = (omega arith, omega arith) in
    let db : IsDigit (b'0' + r % 10) = (omega arith, omega arith) in
    let whole : value 0 (format_uint q) * 100
          + ((b'0' + r / 10 - b'0') * 10 + (b'0' + r % 10 - b'0'))
        ≡ n =
      rw v.spells (omega arith) in
    rw (
      cut_at-append (format_uint q) (two_digits r) v.all_digits,
      v.nonempty,
      v.no_leading_zero,
      require_digits_lem (format_uint q) v.all_digits,
      require_digits_lem (two_digits r) (da, (db, tt)),
      digits_to_minor_units_lem (format_uint q) (b'0' + r / 10) (b'0' + r % 10) v.all_digits da db,
      whole,
    )

bounded-signed : (n : ℕ) → (bounded n >>= signed false) ≡ bounded n
unfolding signed
bounded-signed n = ground arith

head_not_minus :
    (s : Bytes)
    → All IsDigit s
    → is_empty s ≡ false
    → (t : Bytes) → parse_minor_units (s ++ t) ≡ parse_parts false (cut_at b'.' (s ++ t))
unfolding parse_minor_units
head_not_minus [] v e t = cc
head_not_minus (c ∷ s) v e t = ground arith

-- An amount that is not negative is read back from its canonical text, with its bound.
pub parse-render : (n : ℕ) → parse_minor_units (render n) ≡ bounded n
parse-render n =
    let v = format_uint-IsDecimal (n / 100) in
    head_not_minus (format_uint (n / 100)) v.all_digits v.nonempty (b'.' ∷ two_digits (n % 100))
    ∙ parse_parts_lem false n
    ∙ bounded-signed n

-- The same behind a sign.
parse-minus : (n : ℕ) → parse_minor_units (b'-' ∷ render n) ≡ (bounded n >>= signed true)
unfolding parse_minor_units
parse-minus n = parse_parts_lem true n

signed-negsuc : (n : ℕ) → n < max_units → (bounded (suc n) >>= signed true) ≡ ok (negsuc n)
unfolding signed
signed-negsuc n h = ground (arith, neg64-pos n)

-- The text of every int64 amount but the smallest is read back as that amount, and the text of the
-- smallest one is refused as an overflow.
pub parse_minor_units-format :
    (minor : ℤ)
    → IsInt64 minor
    → parse_minor_units (format minor)
      ≡ (if eqb_ℤ minor min_int64 then err err_overflow else ok minor)
parse_minor_units-format (pos n) h = rw (format-pos n, parse-render n) (ground arith)
parse_minor_units-format (negsuc n) h = elim (dec_lt n max_units) [
  | yes k ↦
      rw (format-negsuc n (omega arith), parse-minus (suc n), signed-negsuc n k) (ground arith)
  | no k ↦ rw (format-negsuc n (omega arith), parse-minus (suc n)) (ground arith)
]
