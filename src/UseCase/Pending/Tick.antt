-- ===== src/UseCase/Pending/Tick.antt =====
-- Tick: one unit of work for each pending operation, until there is none or the batch is full.
use jungle_gaming.Prelude.{ℕ, zero, suc, Bool, true, false, Option, none, some, List, [], ◌∷◌}
use jungle_gaming.Prelude.Int.{pos_part}
use jungle_gaming.Shared.{Error, Result, ok, err, Time}
use jungle_gaming.Wagering.Transaction.{Transaction}
use jungle_gaming.Repository.Pending.{claim_pending_references}
use jungle_gaming.UseCase.Monad.{Env, World, M, pure, ◌>>=◌, ◌>>◌, statement, read_clock, execute}
use jungle_gaming.UseCase.Pending.Policy.{PendingReferencePolicy}
use jungle_gaming.UseCase.Pending.Resume.{resume}

-- The number of operations that were resumed, and the error that ended the tick.
pub record TickResult : Type 0 where
  pub processed : ℕ
  pub failure : Option Error

module _ (env : Env) (policy : PendingReferencePolicy) where
  unfoldable pub resume_first : Time → List Transaction → M Bool
  resume_first now [] = pure false
  resume_first now (pending ∷ rest) = do resume env policy pending now; pure true

  -- The function of the unit of work; it says whether there was progress.
  unfoldable pub resume_next : M Bool
  unfolding resume_first
  resume_next = do
    now ← read_clock env
    claimed ← statement env (claim_pending_references 1 now)
    resume_first now claimed

  -- After one unit of work: the next one, or the end.
  unfoldable pub advance :
      (ℕ → World → TickResult × World) → ℕ → Result Bool → World → TickResult × World
  advance next processed (ok true) w = next (suc processed) w
  advance next processed (ok false) w = (record { processed = processed; failure = none }, w)
  advance next processed (err e) w = (record { processed = processed; failure = some e }, w)

  -- The loop, with the rounds that the batch has left.
  unfoldable pub tick_rounds : ℕ → ℕ → World → TickResult × World
  unfolding advance
  tick_rounds zero processed w = (record { processed = processed; failure = none }, w)
  tick_rounds (suc n) processed w =
      let (r, w') = execute env resume_next w in
      advance (λ count world. tick_rounds n count world) processed r w'

  unfoldable pub tick : World → TickResult × World
  unfolding tick_rounds
  tick w = tick_rounds (pos_part policy.batch_size) 0 w
