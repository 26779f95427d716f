-- ===== src/UseCase/Pending/Backoff.antt =====
-- referenceBackoff of usecase/resolve_pending.go: its range, its growth and its closed form.
use jungle_gaming.Prelude.{
  ℕ, zero, suc, ◌-◌, ◌*◌, ◌/◌, ◌^◌, ◌≤◌, ◌<◌, ◌≡◌, refl, ap, ◌∙◌, arith, true, false, leb,
  Bool-cases, ◌⊎◌, inl, inr,
}
use native.Mathlib.Nat.{mul_assoc, mul_comm}
use native.Mathlib.Numerals.{unary_clauses}
use jungle_gaming.Prelude.Int.{ℤ, pos, negsuc, ◌≤ℤ◌, ◌<ℤ◌, leb_ℤ, ◌*ℤ◌}
use jungle_gaming.Prelude.Int64.{IsInt64, mul64, mul64_lem, quo64}
use jungle_gaming.UseCase.Pending.Policy.{double_delay, reference_backoff}

half : (m : ℕ) → quo64 (pos m) 2 ≡ pos (m / 2)
unfolding quo64
half m = ground arith

product : (d k : ℕ) → pos d *ℤ pos k ≡ pos (d * k)
unfolding ◌*ℤ◌
product d k = ground arith

twice : (d : ℕ) → pos d *ℤ pos 2 ≡ pos (d * 2)
unfolding ◌*ℤ◌
twice d = ground arith

doubled : (d : ℕ) → d * 2 ≤ 9223372036854775807 → mul64 (pos d) (pos 2) ≡ pos (d * 2)
doubled d h =
    let fits : IsInt64 (pos d *ℤ pos 2) = rw (twice d) (omega arith, omega arith) in
    mul64_lem (pos d) (pos 2) fits ∙ twice d

-- The two ends of a round.
stops : (n d m : ℕ) → m / 2 ≤ d → double_delay (suc n) (pos d) (pos m) ≡ pos m
unfolding double_delay
stops n d m h = let t : leb_ℤ (pos (m / 2)) (pos d) ≡ true = ground arith in rw (half m, t) refl

goes_on :
    (n d m : ℕ)
    → d < m / 2
    → m ≤ 9223372036854775807
    → double_delay (suc n) (pos d) (pos m) ≡ double_delay n (pos (d * 2)) (pos m)
unfolding double_delay
goes_on n d m h i =
    let t : leb_ℤ (pos (m / 2)) (pos d) ≡ false = ground arith in
    rw (half m, t, doubled d (omega arith)) refl

abbrev Between : ℕ → ℤ → ℕ → Type 0
Between low x high = (pos low ≤ℤ x) × (x ≤ℤ pos high)

in_range :
    (n d m : ℕ) → d ≤ m → m ≤ 9223372036854775807 → Between d (double_delay n (pos d) (pos m)) m
unfolding double_delay
in_range zero d m h i = (omega arith, omega arith)
in_range (suc n) d m h i = elim (Bool-cases (leb (m / 2) d)) [
  | inl t ↦ rw (stops n d m (ground arith)) (omega arith, omega arith)
  | inr f ↦
      let (low, high) = in_range n (d * 2) m (ground arith) i in
      rw (goes_on n d m (ground arith) i) (omega arith, high)
]

grows :
    (n d m : ℕ)
    → d ≤ m
    → m ≤ 9223372036854775807
    → double_delay n (pos d) (pos m) ≤ℤ double_delay (suc n) (pos d) (pos m)
grows zero d m h i = let (low, high) = in_range 1 d m h i in unfold double_delay in low
grows (suc n) d m h i = elim (Bool-cases (leb (m / 2) d)) [
  | inl t ↦ rw (stops n d m (ground arith), stops (suc n) d m (ground arith)) (omega arith)
  | inr f ↦
      rw (goes_on n d m (ground arith) i, goes_on (suc n) d m (ground arith) i)
        (grows n (d * 2) m (ground arith) i)
]

power : (d n : ℕ) → d * 2 * 2 ^ n ≡ d * 2 ^ suc n
power d n = simp unary_clauses (mul_assoc d 2 (2 ^ n) ∙ ap (λ (x : ℕ). d * x) (mul_comm 2 (2 ^ n)))

closed :
    (n d m : ℕ)
    → d ≤ m
    → m ≤ 9223372036854775807
    → (double_delay n (pos d) (pos m) ≡ pos (d * 2 ^ n)) ⊎ (double_delay n (pos d) (pos m) ≡ pos m)
closed zero d m h i = inl (unfold double_delay in ap (λ (x : ℕ). pos x) (ground arith))
closed (suc n) d m h i = elim (Bool-cases (leb (m / 2) d)) [
  | inl t ↦ inr (stops n d m (ground arith))
  | inr f ↦
      let on = goes_on n d m (ground arith) i in
      elim (closed n (d * 2) m (ground arith) i) [
        | inl e ↦ inl (on ∙ e ∙ ap (λ (x : ℕ). pos x) (power d n))
        | inr e ↦ inr (on ∙ e)
      ]
]

attempt_lem :
    (n : ℕ) (base max : ℤ) → reference_backoff (pos (suc n)) base max ≡ double_delay n base max
unfolding reference_backoff
attempt_lem n base max =
    let left : suc n - 1 ≡ n = omega arith in ap (λ (k : ℕ). double_delay k base max) left

-- For a base of one nanosecond at least and a maximum that is no smaller and an int64, the delay of an
-- attempt, counted from one, lies between the base and the maximum, is no longer than the delay of the
-- next attempt, and is either the base doubled once for each attempt before it or the maximum. No
-- doubling overflows.
pub reference_backoff_lem :
    (n : ℕ) (base max : ℤ)
    → pos 0 <ℤ base
    → base ≤ℤ max
    → IsInt64 max
    → (base ≤ℤ reference_backoff (pos (suc n)) base max)
      × (reference_backoff (pos (suc n)) base max ≤ℤ max)
      × (reference_backoff (pos (suc n)) base max ≤ℤ reference_backoff (pos (suc (suc n))) base max)
      × ((reference_backoff (pos (suc n)) base max ≡ base *ℤ pos (2 ^ n))
          ⊎ (reference_backoff (pos (suc n)) base max ≡ max))
reference_backoff_lem n (pos d) (pos m) h i (_, j) =
    let (low, high) = in_range n d m (omega arith) (omega arith) in
    rw (attempt_lem n (pos d) (pos m), attempt_lem (suc n) (pos d) (pos m), product d (2 ^ n))
      (low, high, grows n d m (omega arith) (omega arith), closed n d m (omega arith) (omega arith))
reference_backoff_lem n (pos d) (negsuc m) h i j = absurd (omega arith)
reference_backoff_lem n (negsuc d) max h i j = absurd (omega arith)
