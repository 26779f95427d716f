-- ===== src/Prelude/Int64.antt =====
-- Go's int64: an integer in the range, with the wrap-around of each operation written out.
use Prim.Native.Nat.{ℕ, zero, suc, ◌≤◌, ◌-◌, ◌/◌, ◌%◌, ◌^◌}
use mathlib.Core.Path.{◌≡◌, refl, ◌∙◌}
use mathlib.Core.Bool.{Bool, true, ◌&&◌}
use native.Mathlib.Omega.{arith}
use jungle_gaming.Prelude.Tests.{ltb, if◌then◌else◌}
use jungle_gaming.Prelude.Int.{
  ℤ, pos, negsuc, pos_part, neg_part, sub_ℕ, ◌+ℤ◌, ◌-ℤ◌, ◌*ℤ◌, ◌≤ℤ◌, leb_ℤ, int_laws,
}

-- math.MaxInt64 and math.MinInt64
abbrev pub max_int64 : ℤ
max_int64 = pos 9223372036854775807

abbrev pub min_int64 : ℤ
min_int64 = negsuc 9223372036854775807

abbrev pub IsInt64 : ℤ → Type 0
IsInt64 a = (min_int64 ≤ℤ a) × (a ≤ℤ max_int64)

-- The signed number that the low 64 bits of an integer stand for.
low_bits : ℤ → ℕ
low_bits (pos n) = n % 2 ^ 64
low_bits (negsuc n) = 2 ^ 64 - 1 - n % 2 ^ 64

pub wrap64 : ℤ → ℤ
unfolding low_bits
wrap64 a =
    let u = low_bits a in
    if ltb u 9223372036854775808 then pos u else negsuc (18446744073709551615 - u)

pub wrap64_lem : (a : ℤ) → IsInt64 a → wrap64 a ≡ a
unfolding wrap64
wrap64_lem (pos n) h = ground arith
wrap64_lem (negsuc n) h = ground arith

unfoldable pub add64 : ℤ → ℤ → ℤ
unfolding wrap64 ◌+ℤ◌
add64 a b = wrap64 (a +ℤ b)

unfoldable pub sub64 : ℤ → ℤ → ℤ
unfolding wrap64 ◌-ℤ◌
sub64 a b = wrap64 (a -ℤ b)

unfoldable pub mul64 : ℤ → ℤ → ℤ
unfolding wrap64 ◌*ℤ◌
mul64 a b = wrap64 (a *ℤ b)

unfoldable pub neg64 : ℤ → ℤ
unfolding wrap64 ◌-ℤ◌
neg64 a = wrap64 (pos 0 -ℤ a)

-- Go's `/` and `%` by a positive constant: towards zero, with the dividend's sign.
unfoldable pub quo64 : ℤ → ℕ → ℤ
quo64 a k = sub_ℕ (pos_part a / k) (neg_part a / k)

unfoldable pub rem64 : ℤ → ℕ → ℤ
rem64 a k = sub_ℕ (pos_part a % k) (neg_part a % k)

-- Inside the range the operations are the integers' own.
pub add64_lem : (a b : ℤ) → IsInt64 (a +ℤ b) → add64 a b ≡ a +ℤ b
unfolding add64
add64_lem a b h = wrap64_lem (a +ℤ b) h

pub sub64_lem : (a b : ℤ) → IsInt64 (a -ℤ b) → sub64 a b ≡ a -ℤ b
unfolding sub64
sub64_lem a b h = wrap64_lem (a -ℤ b) h

pub mul64_lem : (a b : ℤ) → IsInt64 (a *ℤ b) → mul64 a b ≡ a *ℤ b
unfolding mul64
mul64_lem a b h = wrap64_lem (a *ℤ b) h

pub neg64_lem : (a : ℤ) → IsInt64 (pos 0 -ℤ a) → neg64 a ≡ pos 0 -ℤ a
unfolding neg64
neg64_lem a h = wrap64_lem (pos 0 -ℤ a) h

-- The test of the range, as a number's own description of it.
abbrev pub in_int64 : ℤ → Bool
in_int64 a = leb_ℤ min_int64 a && leb_ℤ a max_int64

pub in_int64_of_true : (a : ℤ) → in_int64 a ≡ true → IsInt64 a
in_int64_of_true a h = ground arith

pub in_int64-true : (a : ℤ) → IsInt64 a → in_int64 a ≡ true
in_int64-true a h = ground arith

pub neg64-neg : (m : ℕ) → m ≤ 9223372036854775807 → neg64 (sub_ℕ 0 m) ≡ pos m
neg64-neg zero h = unfold neg64 in refl
neg64-neg (suc m) h =
    let below : sub_ℕ 0 (suc m) ≡ negsuc m = ground arith in
    rw below (neg64_lem (negsuc m) (omega int_laws, omega int_laws) ∙ omega int_laws)

pub quo64-negsuc : (n k : ℕ) → quo64 (negsuc n) k ≡ sub_ℕ (0 / k) (suc n / k)
unfolding quo64
quo64-negsuc n k = refl

pub rem64-negsuc : (n k : ℕ) → rem64 (negsuc n) k ≡ sub_ℕ (0 % k) (suc n % k)
unfolding rem64
rem64-negsuc n k = refl

pub neg64-pos : (n : ℕ) → n ≤ 9223372036854775807 → neg64 (pos (suc n)) ≡ negsuc n
neg64-pos n h =
    let exact : pos 0 -ℤ pos (suc n) ≡ negsuc n = omega int_laws in
    neg64_lem (pos (suc n)) (rw exact (omega arith, omega arith)) ∙ exact
