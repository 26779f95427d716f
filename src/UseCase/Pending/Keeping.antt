-- ===== src/UseCase/Pending/Keeping.antt =====
-- The books under Tick of usecase/resolve_pending.go.
use jungle_gaming.Prelude.{
  ℕ, zero, suc, ◌+◌, ◌≤◌, ◌≡◌, arith, Bool, true, false, not, List, [], ◌∷◌, All, Option, none,
  some,
}
use jungle_gaming.Prelude.Int.{pos_part}
use jungle_gaming.Prelude.Int64.{IsInt64}
use jungle_gaming.Shared.{Result, ok, err, errors_is, not_found, Time, Uuid}
use jungle_gaming.Wallet.{Wallet}
use jungle_gaming.Wagering.Status.{status_eq, is_terminal, pending_reference}
use jungle_gaming.Wagering.Failure.{FailureCode}
use jungle_gaming.Wagering.Transaction.{Transaction}
use jungle_gaming.Wagering.Transaction.Machine.{resolve_reference}
use jungle_gaming.Repository.Pending.{claim_pending_references, pending_rows}
use jungle_gaming.Repository.Ordered.{limit_rows}
use jungle_gaming.UseCase.Monad.{Env, World, raise, execute, opened, statement, read_clock}
use jungle_gaming.UseCase.Process.Apply.{reversal_rejection, reversal_direction}
use jungle_gaming.Repository.Tables.{Db}
use jungle_gaming.UseCase.Preserves.{Preserves-execute}
use jungle_gaming.UseCase.Triple.{
  Triple, Triple-bind, Triple-lift, Triple-pure, Triple-raise, Triple-statement, Triple-given,
  Triple-if, Leaves, Leaves-lift, Leaves-pure, Leaves-bind, Leaves-statement, Leaves-attempt,
  execute-keeps_at, statement-at, continue-Triple, OnOk, Claim, on_read,
}
use jungle_gaming.UseCase.Books.{IsBooked}
use jungle_gaming.UseCase.Books.Asides.{
  persist_rejected-Leaves, update_transaction-IsAside, reversal-IsAside, by_external_id-IsAside,
}
use jungle_gaming.UseCase.Books.Moving.{IsLocked, aside, move-Triple}
use jungle_gaming.UseCase.Books.Keeping.{lock_triple}
use jungle_gaming.UseCase.Pending.Policy.{PendingReferencePolicy, exhausted}
use jungle_gaming.UseCase.Pending.Resume.{
  wait, wait_or_expire, settle_reversal, settle_pending, resume_with, resume, request_from_pending,
}
use jungle_gaming.UseCase.Pending.Tick.{
  resume_first, resume_next, advance, tick_rounds, tick, TickResult,
}
use jungle_gaming.UseCase.Pending.Claimed.{HasAmount, scanned_fit, pending_fit}
use jungle_gaming.UseCase.Pending.Amounts.{AmountsFit, next_fits}

resolved_amount :
    (t t' : Transaction) (id : Uuid) (now : Time)
    → resolve_reference t id now ≡ ok t'
    → t'.amount ≡ t.amount
unfolding resolve_reference
resolved_amount t t' id now h = ground arith

module _ (env : Env) (policy : PendingReferencePolicy) where
  wait-Leaves :
      (pending : Transaction) (now : Time) → Leaves (wait_or_expire env policy pending now)
  unfolding wait_or_expire wait
  wait-Leaves pending now P =
      Triple-if (exhausted policy pending now) _ (wait env policy pending now)
        (λ u. persist_rejected-Leaves env pending _ now false P)
        (λ u.
          Leaves-bind _ _ (Leaves-lift _)
            (λ t'.
              Leaves-bind _ _ (Leaves-statement env _ (update_transaction-IsAside t'))
                (λ v. Leaves-pure _))
            P)

  module _ (target : Wallet) (pending : Transaction) (now : Time)
      (h : IsInt64 pending.amount.minor) where
    reversal-Triple :
        (reference : Transaction) (reverted : Bool)
        → Triple
            (IsLocked target)
            (settle_reversal env policy target pending reference now reverted)
            (λ _. IsBooked)
    unfolding settle_reversal
    reversal-Triple reference true =
        aside target _ (persist_rejected-Leaves env pending _ now false)
    reversal-Triple reference false =
        Triple-bind _ _
          (Triple-lift (resolve_reference pending reference.id now)
            (λ t' e ws es p. (rw (resolved_amount pending t' _ now e) h, p)))
          (λ t'. Triple-given (λ i.
            move-Triple env target t'.amount now i t' (reversal_direction reference.kind) false))

    settled-Triple :
        (reference : Transaction) (code : Option FailureCode)
        → Triple
            (IsLocked target)
            (settle_pending env policy target pending reference now code)
            (λ _. IsBooked)
    unfolding settle_pending
    settled-Triple reference (some code) =
        aside target _ (persist_rejected-Leaves env pending code now false)
    settled-Triple reference none =
        Triple-bind _ _ (Leaves-statement env _ (reversal-IsAside _) _)
          (λ reverted. reversal-Triple reference reverted)

    resumed-Triple :
        (r : Result Transaction)
        → Triple (IsLocked target) (resume_with env policy target pending now r) (λ _. IsBooked)
    unfolding resume_with
    resumed-Triple (err e) =
        Triple-if (errors_is e not_found) (wait_or_expire env policy pending now) (raise e)
          (λ u. aside target _ (wait-Leaves pending now)) (λ u. Triple-raise e)
    resumed-Triple (ok reference) =
        Triple-if (not (is_terminal reference.status)) (wait_or_expire env policy pending now)
          (settle_pending env policy target pending reference now
            (reversal_rejection reference (request_from_pending env pending)))
          (λ u. aside target _ (wait-Leaves pending now)) (λ u. settled-Triple reference _)

  resume-Triple :
      (pending : Transaction) (now : Time)
      → IsInt64 pending.amount.minor
      → Triple IsBooked (resume env policy pending now) (λ _. IsBooked)
  unfolding resume
  resume-Triple pending now h =
      Triple-if (not (status_eq pending.status pending_reference)) _ _
        (λ u. Triple-pure _ (λ ws es b. b))
        (λ u. Triple-bind _ _ (Triple-statement env _ (lock_triple pending.wallet_id)) (λ target.
          Triple-bind _ _ (Leaves-attempt env _ (by_external_id-IsAside _ _) _)
            (λ r. resumed-Triple target pending now h r)))

claimed_triple :
    (n : ℕ) (now : Time) (db : Db)
    → AmountsFit db
    → IsBooked db.wallets db.entries
    → OnOk
        (λ ts ws es. All HasAmount ts × IsBooked ws es)
        (claim_pending_references n now db).0
        (claim_pending_references n now db).1
unfolding claim_pending_references
claimed_triple n now db fit b =
    on_read (λ ts ws es. All HasAmount ts × IsBooked ws es) _ db
      (λ ts e. (
        scanned_fit (limit_rows n (pending_rows now db.transactions)) ts
            (pending_fit n now db.transactions fit) e,
        b,
      ))

-- The books, and the type of the column of the amounts.
pub record IsKept (db : Db) : Type 0 where
  pub booked : IsBooked db.wallets db.entries
  pub amounts : AmountsFit db

module _ (env : Env) (policy : PendingReferencePolicy) where
  first-Triple :
      (now : Time) (claimed : List Transaction)
      → Triple
          (λ ws es. All HasAmount claimed × IsBooked ws es)
          (resume_first env policy now claimed)
          (λ _. IsBooked)
  unfolding resume_first
  first-Triple now [] = Triple-pure false (λ ws es (h, b). b)
  first-Triple now (pending ∷ rest) = Triple-given (λ (h, hs).
      Triple-bind _ _ (resume-Triple env policy pending now h)
        (λ r. Triple-pure true (λ ws es b. b)))

  next_books :
      (w : World)
      → IsKept w.db
      → OnOk (λ _. IsBooked) (resume_next env policy w).0 (resume_next env policy w).1.db
  unfolding resume_next read_clock
  next_books w k =
      let now = env.now w.calls in
      let w' : World = record w { calls = suc w.calls } in
      let claim = claim_pending_references 1 now in
      let Q : List Transaction → Claim = λ ts ws es. All HasAmount ts × IsBooked ws es in
      continue-Triple Q (λ _. IsBooked) (resume_first env policy now) (statement env claim w').0
        (statement env claim w').1
        (statement-at Q env claim w' (claimed_triple 1 now w.db k.amounts k.booked))
        (λ ts. first-Triple now ts)

  next_IsKept : (w : World) → IsKept w.db → IsKept (execute env (resume_next env policy) w).1.db
  next_IsKept w k = record {
    booked =
        execute-keeps_at env (resume_next env policy) IsBooked w (next_books (opened w) k) k.booked;
    amounts =
        (Preserves-execute env (resume_next env policy) (next_fits env policy)).at w k.amounts;
  }

  -- What the rounds from a count on end with.
  abbrev Ends : ℕ → ℕ → TickResult × World → Type 0
  Ends processed n (r, w) = IsKept w.db × (processed ≤ r.processed) × (r.processed ≤ processed + n)

  advance-Ends :
      (next : ℕ → World → TickResult × World) (n processed : ℕ) (r : Result Bool) (w : World)
      → IsKept w.db
      → ((count : ℕ) (world : World) → IsKept world.db → Ends count n (next count world))
      → Ends processed (suc n) (advance env policy next processed r w)
  unfolding advance
  advance-Ends next n processed (ok true) w k h =
      let (kept, low, high) = h (suc processed) w k in (kept, omega arith, omega arith)
  advance-Ends next n processed (ok false) w k h = (k, omega arith, omega arith)
  advance-Ends next n processed (err e) w k h = (k, omega arith, omega arith)

  rounds_end :
      (n processed : ℕ) (w : World)
      → IsKept w.db
      → Ends processed n (tick_rounds env policy n processed w)
  unfolding tick_rounds
  rounds_end zero processed w k = (k, omega arith, omega arith)
  rounds_end (suc n) processed w k =
      advance-Ends (λ count world. tick_rounds env policy n count world) n processed
        (execute env (resume_next env policy) w).0 (execute env (resume_next env policy) w).1
        (next_IsKept w k) (λ count world k'. rounds_end n count world k')

  -- A tick of the worker keeps the books and the amounts int64, whatever the policy, the identifiers and
  -- the instants that it is given, and the calls of the database that fail, and it resumes no more
  -- operations than its batch.
  pub tick-IsKept :
      (w : World)
      → IsKept w.db
      → IsKept (tick env policy w).1.db
        × ((tick env policy w).0.processed ≤ pos_part policy.batch_size)
  unfolding tick
  tick-IsKept w k =
      let (kept, _, high) = rounds_end (pos_part policy.batch_size) 0 w k in (kept, omega arith)
