-- ===== src/Money/Text/Value.antt =====
-- What the loops of parseMinorUnits compute: the number that the digits spell, or the overflow error.
use jungle_gaming.Prelude.{
  ℕ, ◌+◌, ◌-◌, ◌*◌, ◌≤◌, ◌≡◌, refl, arith, leb, [], ◌∷◌, All, if◌then◌else◌,
}
use jungle_gaming.Prelude.Bytes.{Bytes}
use jungle_gaming.Prelude.Int.{ℤ, pos, ◌+ℤ◌, ◌*ℤ◌, int_laws, eq_of_parts, *ℤ-pos}
use jungle_gaming.Shared.{Result, ok, err}
use jungle_gaming.Money.{add, multiply, err_overflow}
use jungle_gaming.Money.Arithmetic.{add_lem, multiply_lem}
use jungle_gaming.Money.Text.{require_digits, digit_value, integer_units, digits_to_minor_units}
use jungle_gaming.Money.Text.Decimal.{IsDigit, value, le-value}

abbrev pub max_units : ℕ
max_units = 9223372036854775807

-- A number that fits is returned, and one that does not is an overflow.
abbrev pub bounded : ℕ → Result ℤ
bounded n = if leb n max_units then ok (pos n) else err err_overflow

times : (n k : ℕ) → pos n *ℤ pos k ≡ pos (n * k)
times n k = eq_of_parts _ _ (omega (arith, *ℤ-pos (pos n) k))

plus : (a b : ℕ) → pos a +ℤ pos b ≡ pos (a + b)
plus a b = omega int_laws

pub multiply-pos :
    (n : ℕ) → (multiply (pos n) 10 ≡ bounded (n * 10)) × (multiply (pos n) 100 ≡ bounded (n * 100))
multiply-pos n = ground (arith, multiply_lem (pos n), times n 10, times n 100)

pub add-pos : (a b : ℕ) → a ≤ max_units → b ≤ max_units → add (pos a) (pos b) ≡ bounded (a + b)
add-pos a b h k =
    ground (
      arith,
      add_lem (pos a) (pos b) (omega arith, omega arith) (omega arith, omega arith),
      plus a b,
    )

pub digit_value_lem : (c : ℕ) → IsDigit c → digit_value c ≡ c - b'0'
digit_value_lem c h = omega arith

integer_units_step :
    (n c : ℕ) (s : Bytes)
    → n ≤ max_units
    → IsDigit c
    → integer_units (pos n) (c ∷ s) ≡ (
        if leb (n * 10 + (c - b'0')) max_units
        then integer_units (pos (n * 10 + (c - b'0'))) s
        else err err_overflow)
unfolding integer_units
integer_units_step n c s h d =
    rw (digit_value_lem c d) (ground (arith, multiply-pos n, add-pos (n * 10) (c - b'0')))

pub integer_units_lem :
    (s : Bytes) (n : ℕ)
    → n ≤ max_units
    → All IsDigit s
    → integer_units (pos n) s ≡ bounded (value n s)
integer_units_lem [] n h v = unfold integer_units in ground arith
integer_units_lem (c ∷ s) n h (d, v) = ground (
  arith,
  integer_units_step n c s h d,
  integer_units_lem s (n * 10 + (c - b'0')),
  le-value s (n * 10 + (c - b'0')),
)

-- The two parts of an amount are read as one number of minor units, with its bound.
pub digits_to_minor_units_lem :
    (s : Bytes) (a b : ℕ)
    → All IsDigit s
    → IsDigit a
    → IsDigit b
    → digits_to_minor_units s (a ∷ b ∷ [])
      ≡ bounded (value 0 s * 100 + ((a - b'0') * 10 + (b - b'0')))
unfolding digits_to_minor_units
digits_to_minor_units_lem s a b v da db =
    rw (digit_value_lem a da, digit_value_lem b db)
      (ground (
        arith,
        integer_units_lem s 0 (omega arith) v,
        multiply-pos (value 0 s),
        add-pos (value 0 s * 100) ((a - b'0') * 10 + (b - b'0')),
      ))

-- requireDigits accepts digits and nothing else.
pub require_digits_lem : (s : Bytes) → All IsDigit s → require_digits s ≡ ok tt
unfolding require_digits
require_digits_lem [] v = refl
require_digits_lem (c ∷ s) (d, v) = ground (arith, require_digits_lem s v)

pub require_digits_sound : (s : Bytes) → require_digits s ≡ ok tt → All IsDigit s
unfolding require_digits
require_digits_sound [] h = tt
require_digits_sound (c ∷ s) h = ground (arith, require_digits_sound s)
