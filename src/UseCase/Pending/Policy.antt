-- ===== src/UseCase/Pending/Policy.antt =====
-- The policy of the worker, its defaults, the backoff and the test of exhaustion. A duration is an int64
-- of nanoseconds.
use jungle_gaming.Prelude.{ℕ, zero, suc, ◌-◌, Bool, ltb, ◌||◌, not, if◌then◌else◌}
use jungle_gaming.Prelude.Int.{ℤ, pos, negsuc, ltb_ℤ, leb_ℤ}
use jungle_gaming.Prelude.Int64.{add64, mul64, quo64}
use jungle_gaming.Shared.{Time, add_duration}
use jungle_gaming.Wagering.Transaction.{Transaction}

pub record PendingReferencePolicy : Type 0 where
  pub max_attempts : ℤ
  pub ttl : ℤ
  pub backoff_base : ℤ
  pub backoff_max : ℤ
  pub batch_size : ℤ

-- The defaults of NewResolvePendingReferences: 10 attempts, 5 minutes, 1 second, 30 seconds, 10 rows.
unfoldable pub with_defaults : PendingReferencePolicy → PendingReferencePolicy
with_defaults p = record {
  max_attempts = if ltb_ℤ p.max_attempts (pos 1) then pos 10 else p.max_attempts;
  ttl = if leb_ℤ p.ttl (pos 0) then pos 300000000000 else p.ttl;
  backoff_base = if leb_ℤ p.backoff_base (pos 0) then pos 1000000000 else p.backoff_base;
  backoff_max = if leb_ℤ p.backoff_max (pos 0) then pos 30000000000 else p.backoff_max;
  batch_size = if ltb_ℤ p.batch_size (pos 1) then pos 10 else p.batch_size;
}

-- The loop of referenceBackoff, with the rounds that are left.
unfoldable pub double_delay : ℕ → ℤ → ℤ → ℤ
double_delay zero delay max = delay
double_delay (suc n) delay max =
    let rest = double_delay n (mul64 delay (pos 2)) max in
    if leb_ℤ (quo64 max 2) delay then max else rest

-- From 1 to the attempts, which are 1 at least.
abbrev pub rounds : ℤ → ℕ
rounds (pos n) = n - 1
rounds (negsuc n) = 0

unfoldable pub reference_backoff : ℤ → ℤ → ℤ → ℤ
unfolding double_delay
reference_backoff attempts base max = double_delay (rounds attempts) base max

unfoldable pub exhausted : PendingReferencePolicy → Transaction → Time → Bool
exhausted policy pending now =
    leb_ℤ policy.max_attempts (add64 pending.attempt_count (pos 1))
    || not (ltb now (add_duration pending.created_at policy.ttl))
