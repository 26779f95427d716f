-- ===== src/UseCase/Preserves.antt =====
-- What a run of an action keeps true of the database, whether it succeeds or fails.
pub mod Settling
pub mod Processing
use jungle_gaming.Prelude.{ℕ, ◌≡◌, refl, Bool, true, false, if◌then◌else◌, Option, none, some}
use jungle_gaming.Shared.{Error, Result, ok, err}
use jungle_gaming.Repository.Tables.{Db, Statement}
use jungle_gaming.UseCase.Monad.{
  at_either, Env, World, M, pure, raise, lift, attempt, continue, ◌>>=◌, statement, new_id,
  read_clock, execute, opened,
}

pub record Preserves {A : Type 0} (P : Db → Type 0) (m : M A) : Type 0 where
  pub at : (w : World) → P w.db → P (m w).1.db

-- A statement that keeps P true.
abbrev pub Safe : {A : Type 0} → (Db → Type 0) → Statement A → Type 0
Safe P s = (db : Db) → P db → P (s db).1

module _ {A : Type 0} {P : Db → Type 0} where
  pub Preserves-pure : (a : A) → Preserves P (pure a)
  Preserves-pure a = record { at = λ w p. p }

  pub Preserves-raise : (e : Error) → Preserves P (raise {A = A} e)
  Preserves-raise e = record { at = λ w p. p }

  pub Preserves-lift : (r : Result A) → Preserves P (lift r)
  Preserves-lift r = record { at = λ w p. p }

  pub Preserves-if :
      (b : Bool) (m n : M A) → Preserves P m → Preserves P n → Preserves P (if b then m else n)
  Preserves-if true m n h k = h
  Preserves-if false m n h k = k

  pub Preserves-attempt : (m : M A) → Preserves P m → Preserves P (attempt m)
  Preserves-attempt m h = record { at = λ w p. h.at w p }

  statement_safe :
      (env : Env) (s : Statement A) (w : World) (b : Bool) (o : Option ℕ)
      → w.aborted ≡ b
      → env.fault w.calls ≡ o
      → Safe P s
      → P w.db
      → P (statement env s w).1.db
  unfolding statement
  statement_safe env s w true o a f h p = rw a p
  statement_safe env s w false none a f h p = rw (a, f) (h w.db p)
  statement_safe env s w false (some n) a f h p = rw (a, f) p

  pub Preserves-statement : (env : Env) (s : Statement A) → Safe P s → Preserves P (statement env s)
  Preserves-statement env s h = record { at = λ w p. statement_safe env s w _ _ refl refl h p }

  execute_safe :
      (env : Env) (fn : M A) (w : World) (o o' : Option ℕ) (b : Bool) (r : Result A)
      → Preserves P fn
      → env.fault w.calls ≡ o
      → env.fault (fn (opened w)).1.calls ≡ o'
      → (fn (opened w)).1.aborted ≡ b
      → (fn (opened w)).0 ≡ r
      → P w.db
      → P (execute env fn w).1.db
  unfolding execute
  execute_safe env fn w (some n) o' b r h e e' a q p = rw e p
  execute_safe env fn w none o' b (err x) h e e' a q p = rw (e, q) p
  execute_safe env fn w none o' true (ok v) h e e' a q p = rw (e, q, a) p
  execute_safe env fn w none (some n) false (ok v) h e e' a q p =
      rw (e, q, a, e') (at_either P _ _ _ (h.at (opened w) p) p)
  execute_safe env fn w none none false (ok v) h e e' a q p = rw (e, q, a, e') (h.at (opened w) p)

  pub Preserves-execute : (env : Env) (fn : M A) → Preserves P fn → Preserves P (execute env fn)
  Preserves-execute env fn h = record {
    at = λ w p. execute_safe env fn w _ _ _ _ h refl refl refl refl p;
  }

module _ {A B : Type 0} {P : Db → Type 0} where
  continue_safe :
      (f : A → M B) (r : Result A) (w : World)
      → ((a : A) → Preserves P (f a))
      → P w.db
      → P (continue r f w).1.db
  continue_safe f (ok a) w h p = (h a).at w p
  continue_safe f (err e) w h p = p

  pub Preserves-bind :
      (m : M A) (f : A → M B)
      → Preserves P m
      → ((a : A) → Preserves P (f a))
      → Preserves P (m >>= f)
  Preserves-bind m f h k = record { at = λ w p. continue_safe f (m w).0 (m w).1 k (h.at w p) }

pub Preserves-new_id : {P : Db → Type 0} (env : Env) → Preserves P (new_id env)
unfolding new_id
Preserves-new_id env = record { at = λ w p. p }

pub Preserves-read_clock : {P : Db → Type 0} (env : Env) → Preserves P (read_clock env)
unfolding read_clock
Preserves-read_clock env = record { at = λ w p. p }
