-- ===== src/UseCase/Atomic.antt =====
-- repository/unit_of_work.go: what a unit of work leaves of the database.
use jungle_gaming.Prelude.{ℕ, Bool, true, false, ◌≡◌, refl, Option, none, some, ◌⊎◌, inl, inr}
use jungle_gaming.Shared.{Error, Result, ok, err, wrapped, external}
use jungle_gaming.UseCase.Monad.{
  Env, World, M, execute, execute_read_only, opened, commit_rolled_back,
}

module _ {A : Type 0} (env : Env) (fn : M A) where
  -- The unit of work was undone, and reports an error.
  pub record IsUndone (w : World) : Type 0 where
    pub error : Error
    pub reported : (execute env fn w).0 ≡ err error
    pub undone : (execute env fn w).1.db ≡ w.db

  -- The unit of work was done: its function succeeded and everything it wrote is there. The report is its
  -- result, unless the answer to the commit was lost.
  pub record IsDone (w : World) : Type 0 where
    pub result : A
    pub succeeded : (fn (opened w)).0 ≡ ok result
    pub not_refused : (fn (opened w)).1.aborted ≡ false
    pub done : (execute env fn w).1.db ≡ (fn (opened w)).1.db
    pub reported :
        ((execute env fn w).0 ≡ ok result)
        ⊎ ((n : ℕ) × ((execute env fn w).0 ≡ err (wrapped (external n))))

  lost_commit :
      (w : World) (n : ℕ) (v : A) (applied : Bool)
      → env.commits (fn (opened w)).1.calls ≡ applied
      → env.fault w.calls ≡ none
      → env.fault (fn (opened w)).1.calls ≡ some n
      → (fn (opened w)).1.aborted ≡ false
      → (fn (opened w)).0 ≡ ok v
      → IsUndone w ⊎ IsDone w
  unfolding execute
  lost_commit w n v true l b c a h = inr (record {
    result = v;
    succeeded = h;
    not_refused = a;
    done = rw (b, h, a, c, l) refl;
    reported = inr (n, rw (b, h, a, c) refl);
  })
  lost_commit w n v false l b c a h = inl (record {
    error = wrapped (external n);
    reported = rw (b, h, a, c) refl;
    undone = rw (b, h, a, c, l) refl;
  })

  execute_cases :
      (w : World) (begin commit : Option ℕ) (aborted : Bool) (r : Result A)
      → env.fault w.calls ≡ begin
      → env.fault (fn (opened w)).1.calls ≡ commit
      → (fn (opened w)).1.aborted ≡ aborted
      → (fn (opened w)).0 ≡ r
      → IsUndone w ⊎ IsDone w
  unfolding execute
  execute_cases w (some n) commit t r b c a h =
      inl (record { error = wrapped (external n); reported = rw b refl; undone = rw b refl })
  execute_cases w none commit t (err y) b c a h =
      inl (record { error = y; reported = rw (b, h) refl; undone = rw (b, h) refl })
  execute_cases w none commit true (ok v) b c a h = inl (record {
    error = wrapped commit_rolled_back;
    reported = rw (b, h, a) refl;
    undone = rw (b, h, a) refl;
  })
  execute_cases w none (some n) false (ok v) b c a h = lost_commit w n v _ refl b c a h
  execute_cases w none none false (ok v) b c a h = inr (record {
    result = v;
    succeeded = h;
    not_refused = a;
    done = rw (b, h, a, c) refl;
    reported = inl (rw (b, h, a, c) refl);
  })

  -- A unit of work is all or nothing, whatever fails in it, the begin and a commit whose answer is lost
  -- included: either it reports an error and the database is the one that it began on, or its function
  -- has succeeded without a refused statement and the database has everything that it wrote; then the
  -- result of the function is reported, or the failure of the commit.
  pub execute_atomic : (w : World) → IsUndone w ⊎ IsDone w
  execute_atomic w = execute_cases w _ _ _ _ refl refl refl refl

  read_only_cases :
      (w : World) (begin : Option ℕ)
      → env.fault w.calls ≡ begin
      → (execute_read_only env fn w).1.db ≡ w.db
  unfolding execute_read_only
  read_only_cases w (some n) b = rw b refl
  read_only_cases w none b = rw b refl

  -- A read-only unit of work never changes the database, whatever its function does.
  pub execute_read_only_left : (w : World) → (execute_read_only env fn w).1.db ≡ w.db
  execute_read_only_left w = read_only_cases w _ refl
