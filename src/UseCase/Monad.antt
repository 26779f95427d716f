-- ===== src/UseCase/Monad.antt =====
-- What a use case runs in: application/port, platform/clock and repository/unit_of_work.go. A run
-- numbers its calls of the outside (a statement, the generator of identifiers, the clock); `Env` says
-- what each of them meets. One unit of work runs at a time.
use jungle_gaming.Prelude.{ℕ, suc, Bool, true, false, if◌then◌else◌, Option, none, some, List}
use jungle_gaming.Prelude.Bytes.{Bytes}
use jungle_gaming.Shared.{
  Error, Result, ok, err, caused, external, wrapped, conflict, persistence_conflict, validation,
  invalid_id, Uuid, UuidParser, Time,
}
use jungle_gaming.Repository.Tables.{Db, Statement}

pub record Env : Type 0 where
  -- uuid.NewV7
  pub new_v7 : ℕ → Result Uuid
  -- time.Now, in UTC
  pub now : ℕ → Time
  -- The failure of a call that reaches the database, if it fails for a reason of its own.
  pub fault : ℕ → Option ℕ
  -- Whether PostgreSQL has applied a commit whose answer was lost.
  pub commits : ℕ → Bool
  -- uuid.Parse
  pub uuid_parse : UuidParser
  -- (uuid.UUID).String
  pub uuid_string : Uuid → Bytes
  -- The lower-case hexadecimal SHA-256 of the JSON object with these members.
  pub digest : List (Bytes × Bytes) → Bytes
  -- The correlation identifier of the context, or the one that correlationOrNew makes.
  pub correlation_id : Bytes

-- `aborted` says that PostgreSQL has refused a statement of the transaction that is open: it then refuses
-- every other statement of it, and its commit rolls back.
pub record World : Type 0 where
  pub db : Db
  pub calls : ℕ
  pub aborted : Bool

abbrev pub M : Type 0 → Type 0
M A = World → Result A × World

abbrev pub next_call : World → World
next_call w = record w { calls = suc w.calls }

module _ {A : Type 0} where
  abbrev pub pure : A → M A
  pure a w = (ok a, w)

  abbrev pub raise : Error → M A
  raise e w = (err e, w)

  abbrev pub lift : Result A → M A
  lift r w = (r, w)

  -- A call whose error the caller looks at.
  abbrev pub attempt : M A → M (Result A)
  attempt m w = let (r, w') = m w in (ok r, w')

module _ {A B : Type 0} where
  abbrev pub continue : Result A → (A → M B) → M B
  continue (ok a) f w = f a w
  continue (err e) f w = (err e, w)

  infixl 5 ◌>>=◌ ◌>>◌
  abbrev pub ◌>>=◌ : M A → (A → M B) → M B
  ◌>>=◌ m f w = let (r, w') = m w in continue r f w'

  abbrev pub ◌>>◌ : M A → M B → M B
  m >> n = m >>= λ _. n

-- The world after a begin and after the end of a transaction.
abbrev pub opened : World → World
opened w = record { db = w.db; calls = suc w.calls; aborted = false }

abbrev pub ended : Db → World → World
ended db w = record { db = db; calls = suc w.calls; aborted = false }

-- SQLSTATE 25P02, and pgx.ErrTxCommitRollback.
abbrev pub in_failed_transaction : Error
in_failed_transaction = external 2

abbrev pub commit_rolled_back : Error
commit_rolled_back = external 3

-- The violation of a constraint, as `translate` reports it. A query that finds no row, a row that the
-- program cannot read, and an insert that ON CONFLICT skips are no failures of the statement.
abbrev is_violation : Error → Bool
is_violation (caused conflict persistence_conflict cause) = true
is_violation e = false

abbrev pub is_refused : {A : Type 0} → Result A → Bool
is_refused (ok a) = false
is_refused (err e) = is_violation e

module _ (env : Env) where
  outcome : {A : Type 0} → Option ℕ → Statement A → World → Result A × World
  outcome (some n) s w =
      (err (wrapped (external n)), record { db = w.db; calls = suc w.calls; aborted = true })
  outcome none s w =
      let (r, db') = s w.db in (r, record { db = db'; calls = suc w.calls; aborted = is_refused r })

  attempted_in : {A : Type 0} → Bool → Statement A → World → Result A × World
  unfolding outcome
  attempted_in true s w = (err (wrapped in_failed_transaction), next_call w)
  attempted_in false s w = outcome (env.fault w.calls) s w

  -- A statement, or its failure as `translate` reports it.
  unfoldable pub statement : {A : Type 0} → Statement A → M A
  unfolding attempted_in
  statement s w = attempted_in w.aborted s w

  -- shared.NewID
  abbrev named_id : Result Uuid → Result Uuid
  named_id (ok u) = ok u
  named_id (err e) = err (caused validation invalid_id e)

  unfoldable pub new_id : M Uuid
  new_id w = (named_id (env.new_v7 w.calls), next_call w)

  unfoldable pub read_clock : M Time
  read_clock w = (ok (env.now w.calls), next_call w)

  -- Commit, or its failure: a connection that is lost at the commit leaves open whether it was applied.
  committed : {A : Type 0} → Bool → Option ℕ → A → Db → World → Result A × World
  committed true o a before w = (err (wrapped commit_rolled_back), ended before w)
  committed false (some n) a before w =
      (err (wrapped (external n)), ended (if env.commits w.calls then w.db else before) w)
  committed false none a before w = (ok a, ended w.db w)

  finished : {A : Type 0} → Result A × World → Db → Result A × World
  unfolding committed
  finished (err e, w) before = (err e, record { db = before; calls = w.calls; aborted = false })
  finished (ok a, w) before = committed w.aborted (env.fault w.calls) a before w

  begun : {A : Type 0} → Option ℕ → M A → World → Result A × World
  unfolding finished
  begun (some n) fn w = (err (wrapped (external n)), next_call w)
  begun none fn w = finished (fn (opened w)) w.db

  -- (*UnitOfWork).Execute: begin, the function, then the commit or the rollback.
  unfoldable pub execute : {A : Type 0} → M A → M A
  unfolding begun
  execute fn w = begun (env.fault w.calls) fn w

  abbrev rolled_back : {A : Type 0} → Result A × World → Db → Result A × World
  rolled_back (r, w) before = (r, record { db = before; calls = w.calls; aborted = false })

  read_only : {A : Type 0} → Option ℕ → M A → World → Result A × World
  read_only (some n) fn w = (err (wrapped (external n)), next_call w)
  read_only none fn w = rolled_back (fn (opened w)) w.db

  -- (*UnitOfWork).ExecuteReadOnly: begin, the function, then always the rollback.
  unfoldable pub execute_read_only : {A : Type 0} → M A → M A
  unfolding read_only
  execute_read_only fn w = read_only (env.fault w.calls) fn w

-- What holds of both ends of a commit whose answer was lost.
pub at_either :
    {A : Type 0} (P : A → Type 0) (b : Bool) (x y : A) → P x → P y → P (if b then x else y)
at_either P true x y h k = h
at_either P false x y h k = k
