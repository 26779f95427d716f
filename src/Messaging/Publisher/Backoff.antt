-- ===== src/Messaging/Publisher/Backoff.antt =====
-- backoffDuration of publisher.go against referenceBackoff of usecase/resolve_pending.go.
use jungle_gaming.Prelude.{
  ℕ, zero, suc, ◌-◌, ◌≡◌, refl, sym, ◌∙◌, arith, false, if◌then◌else◌, Bool-cases, inl, inr,
}
use jungle_gaming.Prelude.Int.{ℤ, pos, ◌≤ℤ◌, ◌<ℤ◌, leb_ℤ, ltb_ℤ, int_laws}
use jungle_gaming.Prelude.Int64.{IsInt64, mul64, quo64}
use jungle_gaming.UseCase.Pending.Policy.{double_delay, reference_backoff}
use jungle_gaming.UseCase.Pending.Backoff.{reference_backoff_lem}
use jungle_gaming.Messaging.Publisher.{double_backoff, backoff_duration}

capped : (d max : ℤ) → d ≤ℤ max → (if ltb_ℤ max d then max else d) ≡ d
capped d max h = let t : ltb_ℤ max d ≡ false = ground arith in rw t refl

-- The two loops agree but for the cap.
loops_agree :
    (n : ℕ) (delay max : ℤ)
    → double_backoff n delay max
      ≡ (if ltb_ℤ max (double_delay n delay max) then max else double_delay n delay max)
unfolding double_backoff double_delay
loops_agree zero delay max = refl
loops_agree (suc n) delay max = elim (Bool-cases (leb_ℤ (quo64 max 2) delay)) [
  | inl t ↦ rw t (sym (capped max max (omega int_laws)))
  | inr f ↦ rw f (loops_agree n (mul64 delay (pos 2)) max)
]

-- The publisher's delay is the delay of the worker of pending references, for every attempt from the
-- first on, where the base is positive and no larger than the maximum, an int64: the last cap of the
-- publisher then changes nothing.
pub backoff_duration-reference_backoff :
    (n : ℕ) (base max : ℤ)
    → pos 0 <ℤ base
    → base ≤ℤ max
    → IsInt64 max
    → backoff_duration (pos (suc n)) base max ≡ reference_backoff (pos (suc n)) base max
unfolding backoff_duration reference_backoff
backoff_duration-reference_backoff n base max h i j =
    let (low, high, grows, closed) = reference_backoff_lem n base max h i j in
    loops_agree (suc n - 1) base max ∙ capped (reference_backoff (pos (suc n)) base max) max high
