-- ===== src/Money/Arithmetic.antt =====
-- add, subtract and multiply of money.go against the arithmetic of the integers.
use jungle_gaming.Prelude.{◌≡◌, arith, if◌then◌else◌}
use jungle_gaming.Prelude.Int.{
  ℤ, pos, negsuc, ◌+ℤ◌, ◌-ℤ◌, ◌*ℤ◌, ◌≤ℤ◌, int_laws, *ℤ-pos, +ℤ_parts, -ℤ_parts,
}
use jungle_gaming.Prelude.Int64.{
  IsInt64, in_int64, max_int64, min_int64, add64, sub64, add64_lem, sub64_lem, mul64_lem, quo64,
}
use jungle_gaming.Shared.{ok, err}
use jungle_gaming.Money.{add, subtract, multiply, err_overflow}

-- The guards compute with no wrap-around.
max_less : (b : ℤ) → IsInt64 b → pos 0 ≤ℤ b → sub64 max_int64 b ≡ max_int64 -ℤ b
max_less b hb h = sub64_lem max_int64 b (omega int_laws)

min_less : (b : ℤ) → IsInt64 b → b ≤ℤ pos 0 → sub64 min_int64 b ≡ min_int64 -ℤ b
min_less b hb h = sub64_lem min_int64 b (omega int_laws)

max_plus : (b : ℤ) → IsInt64 b → b ≤ℤ pos 0 → add64 max_int64 b ≡ max_int64 +ℤ b
max_plus b hb h = add64_lem max_int64 b (omega int_laws)

min_plus : (b : ℤ) → IsInt64 b → pos 0 ≤ℤ b → add64 min_int64 b ≡ min_int64 +ℤ b
min_plus b hb h = add64_lem min_int64 b (omega int_laws)

-- Adding two int64 values returns their exact sum if that is an int64, and the overflow error
-- otherwise; the sum never wraps around.
pub add_lem :
    (a b : ℤ)
    → IsInt64 a
    → IsInt64 b
    → add a b ≡ (if in_int64 (a +ℤ b) then ok (a +ℤ b) else err err_overflow)
unfolding add
add_lem a (pos n) ha hb = ground (
  arith,
  max_less (pos n) hb,
  add64_lem a (pos n),
  +ℤ_parts a (pos n),
  -ℤ_parts max_int64 (pos n),
)
add_lem a (negsuc n) ha hb = ground (
  arith,
  min_less (negsuc n) hb,
  add64_lem a (negsuc n),
  +ℤ_parts a (negsuc n),
  -ℤ_parts min_int64 (negsuc n),
)

-- Subtracting two int64 values returns their exact difference if that is an int64, and the overflow
-- error otherwise.
pub subtract_lem :
    (a b : ℤ)
    → IsInt64 a
    → IsInt64 b
    → subtract a b ≡ (if in_int64 (a -ℤ b) then ok (a -ℤ b) else err err_overflow)
unfolding subtract
subtract_lem a (pos n) ha hb = ground (
  arith,
  min_plus (pos n) hb,
  sub64_lem a (pos n),
  -ℤ_parts a (pos n),
  +ℤ_parts min_int64 (pos n),
)
subtract_lem a (negsuc n) ha hb = ground (
  arith,
  max_plus (negsuc n) hb,
  sub64_lem a (negsuc n),
  -ℤ_parts a (negsuc n),
  +ℤ_parts max_int64 (negsuc n),
)

multiply_by_10 :
    (a : ℤ)
    → multiply a 10 ≡ (if in_int64 (a *ℤ pos 10) then ok (a *ℤ pos 10) else err err_overflow)
unfolding multiply quo64
multiply_by_10 (pos n) = ground (arith, *ℤ-pos (pos n) 10, mul64_lem (pos n) (pos 10))
multiply_by_10 (negsuc n) = ground (arith, *ℤ-pos (negsuc n) 10, mul64_lem (negsuc n) (pos 10))

multiply_by_100 :
    (a : ℤ)
    → multiply a 100 ≡ (if in_int64 (a *ℤ pos 100) then ok (a *ℤ pos 100) else err err_overflow)
unfolding multiply quo64
multiply_by_100 (pos n) = ground (arith, *ℤ-pos (pos n) 100, mul64_lem (pos n) (pos 100))
multiply_by_100 (negsuc n) = ground (arith, *ℤ-pos (negsuc n) 100, mul64_lem (negsuc n) (pos 100))

-- Multiplying by 10 and by 100, the factors that the code has, returns the exact product if that is
-- an int64, and the overflow error otherwise.
pub multiply_lem :
    (a : ℤ)
    → (multiply a 10 ≡ (if in_int64 (a *ℤ pos 10) then ok (a *ℤ pos 10) else err err_overflow))
      × (multiply a 100 ≡ (if in_int64 (a *ℤ pos 100) then ok (a *ℤ pos 100) else err err_overflow))
multiply_lem a = (multiply_by_10 a, multiply_by_100 a)
