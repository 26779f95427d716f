-- ===== src/UseCase/Gives.antt =====
-- What an action that succeeds makes of the whole database; nothing is said of one that fails.
use jungle_gaming.Prelude.{ℕ, ◌≡◌, refl, Bool, true, false, if◌then◌else◌, Option, none, some}
use jungle_gaming.Shared.{Error, Result, ok, err}
use jungle_gaming.Repository.Tables.{Db, Statement}
use jungle_gaming.UseCase.Monad.{
  Env, World, M, pure, raise, lift, attempt, continue, ◌>>=◌, statement, execute, opened,
}
use jungle_gaming.UseCase.Preserves.{Preserves}

abbrev pub OnSuccess : {A : Type 0} → (A → Db → Type 0) → Result A → Db → Type 0
OnSuccess Q (ok a) db = Q a db
OnSuccess Q (err e) db = Unit

pub record Gives {A : Type 0} (P : Db → Type 0) (m : M A) (Q : A → Db → Type 0) : Type 0 where
  pub at : (w : World) → P w.db → OnSuccess Q (m w).0 (m w).1.db

-- A failed call leaves no claim.
abbrev pub Met : {A : Type 0} → (A → Db → Type 0) → Result A → Db → Type 0
Met Q (ok a) db = Q a db
Met Q (err e) db = Unit

module _ {A : Type 0} (Q : A → Db → Type 0) where
  statement_gives :
      (env : Env) (s : Statement A) (w : World) (b : Bool) (o : Option ℕ)
      → w.aborted ≡ b
      → env.fault w.calls ≡ o
      → OnSuccess Q (s w.db).0 (s w.db).1
      → OnSuccess Q (statement env s w).0 (statement env s w).1.db
  unfolding statement
  statement_gives env s w true o a f h = rw a tt
  statement_gives env s w false none a f h = rw (a, f) h
  statement_gives env s w false (some n) a f h = rw (a, f) tt

  met : (r : Result A) (db : Db) → OnSuccess Q r db → Met Q r db
  met (ok a) db h = h
  met (err e) db h = tt

  -- The end of a unit of work.
  execute_gives :
      (env : Env) (fn : M A) (w : World) (o o' : Option ℕ) (b : Bool) (r : Result A)
      → OnSuccess Q (fn (opened w)).0 (fn (opened w)).1.db
      → env.fault w.calls ≡ o
      → env.fault (fn (opened w)).1.calls ≡ o'
      → (fn (opened w)).1.aborted ≡ b
      → (fn (opened w)).0 ≡ r
      → OnSuccess Q (execute env fn w).0 (execute env fn w).1.db
  unfolding execute
  execute_gives env fn w (some n) o' b r h e e' a q = rw e tt
  execute_gives env fn w none o' b (err x) h e e' a q = rw (e, q) tt
  execute_gives env fn w none o' true (ok v) h e e' a q = rw (e, q, a) tt
  execute_gives env fn w none (some n) false (ok v) h e e' a q = rw (e, q, a, e') tt
  execute_gives env fn w none none false (ok v) h e e' a q = rw (e, q, a, e') (rw q at h)

module _ {A B : Type 0} (Q : A → Db → Type 0) (R : B → Db → Type 0) where
  continue_gives :
      (f : A → M B) (r : Result A) (w : World)
      → OnSuccess Q r w.db
      → ((a : A) → Gives (Q a) (f a) R)
      → OnSuccess R (continue r f w).0 (continue r f w).1.db
  continue_gives f (ok a) w q k = (k a).at w q
  continue_gives f (err e) w q k = tt

module _ {A : Type 0} {P : Db → Type 0} {Q : A → Db → Type 0} where
  pub Gives-pure : (a : A) → ((db : Db) → P db → Q a db) → Gives P (pure a) Q
  Gives-pure a h = record { at = λ w p. h w.db p }

  pub Gives-raise : (e : Error) → Gives P (raise e) Q
  Gives-raise e = record { at = λ w p. tt }

  pub Gives-if :
      (b : Bool) (m n : M A)
      → (b ≡ true → Gives P m Q)
      → (b ≡ false → Gives P n Q)
      → Gives P (if b then m else n) Q
  Gives-if true m n h k = h refl
  Gives-if false m n h k = k refl

  pub Gives-statement :
      (env : Env) (s : Statement A)
      → ((db : Db) → P db → OnSuccess Q (s db).0 (s db).1)
      → Gives P (statement env s) Q
  Gives-statement env s h = record {
    at = λ w p. statement_gives Q env s w _ _ refl refl (h w.db p);
  }

  pub Gives-attempt : (m : M A) → Gives P m Q → Gives P (attempt m) (Met Q)
  Gives-attempt m h = record { at = λ w p. met Q (m w).0 (m w).1.db (h.at w p) }

  pub Gives-execute : (env : Env) (fn : M A) → Gives P fn Q → Gives P (execute env fn) Q
  Gives-execute env fn h = record {
    at = λ w p. execute_gives Q env fn w _ _ _ _ (h.at (opened w) p) refl refl refl refl;
  }

pub Gives-lift :
    {A : Type 0} {P : Db → Type 0} {Q : A → Db → Type 0} (r : Result A)
    → ((a : A) (db : Db) → r ≡ ok a → P db → Q a db)
    → Gives P (lift r) Q
Gives-lift (ok a) h = record { at = λ w p. h a w.db refl p }
Gives-lift (err e) h = record { at = λ w p. tt }

-- What is not about the database stays.
constant : {A X : Type 0} (r : Result A) (db : Db) → X → OnSuccess (λ a db. X) r db
constant (ok a) db x = x
constant (err e) db x = tt

pub Gives-constant : {A X : Type 0} (m : M A) → Gives (λ db. X) m (λ a db. X)
Gives-constant m = record { at = λ w x. constant (m w).0 (m w).1.db x }

-- An action of which nothing is asked.
on_anything : {A : Type 0} (r : Result A) (db : Db) → OnSuccess (λ a db. Unit) r db
on_anything (ok a) db = tt
on_anything (err e) db = tt

pub Gives-any : {A : Type 0} {P : Db → Type 0} (m : M A) → Gives P m (λ a db. Unit)
Gives-any m = record { at = λ w p. on_anything (m w).0 (m w).1.db }

-- The outcome of an action that keeps P, looked at.
pub Gives-kept :
    {A : Type 0} {P : Db → Type 0} (m : M A) → Preserves P m → Gives P (attempt m) (λ r. P)
Gives-kept m h = record { at = λ w p. h.at w p }

module _ {A B : Type 0} {P : Db → Type 0} {Q : A → Db → Type 0} {R : B → Db → Type 0} where
  pub Gives-bind :
      (m : M A) (f : A → M B) → Gives P m Q → ((a : A) → Gives (Q a) (f a) R) → Gives P (m >>= f) R
  Gives-bind m f h k = record { at = λ w p. continue_gives Q R f (m w).0 (m w).1 (h.at w p) k }
