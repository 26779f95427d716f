-- ===== src/UseCase/Triple.antt =====
-- What an action makes of the wallets and the ledger when it succeeds. A claim is about the two
-- tables; nothing is said of an action that fails.
use jungle_gaming.Prelude.{ℕ, ◌≡◌, refl, Bool, true, false, if◌then◌else◌, Option, none, some, List}
use jungle_gaming.Shared.{Error, Result, ok, err}
use jungle_gaming.Repository.Rows.{WalletRow, EntryRow}
use jungle_gaming.Repository.Tables.{Db, Statement}
use jungle_gaming.UseCase.Monad.{
  at_either, Env, World, M, pure, raise, lift, attempt, continue, ◌>>=◌, statement, new_id,
  read_clock, execute, opened,
}

abbrev pub Claim : Type 1
Claim = List WalletRow → List EntryRow → Type 0

-- The claim holds of the tables that a success leaves.
abbrev pub OnOk : {A : Type 0} → (A → Claim) → Result A → Db → Type 0
OnOk Q (ok a) db = Q a db.wallets db.entries
OnOk Q (err e) db = Unit

pub record Triple {A : Type 0} (P : Claim) (m : M A) (Q : A → Claim) : Type 0 where
  pub at : (w : World) → P w.db.wallets w.db.entries → OnOk Q (m w).0 (m w).1.db

-- A statement that succeeds takes the claim P to the claim Q.
abbrev pub StatementTriple : {A : Type 0} → Claim → Statement A → (A → Claim) → Type 0
StatementTriple P s Q = (db : Db) → P db.wallets db.entries → OnOk Q (s db).0 (s db).1

-- What a statement leaves at one world.
outcome_at :
    {A : Type 0} (Q : A → Claim) (env : Env) (s : Statement A) (w : World) (b : Bool) (o : Option ℕ)
    → w.aborted ≡ b
    → env.fault w.calls ≡ o
    → OnOk Q (s w.db).0 (s w.db).1
    → OnOk Q (statement env s w).0 (statement env s w).1.db
unfolding statement
outcome_at Q env s w true o a f h = rw a tt
outcome_at Q env s w false none a f h = rw (a, f) h
outcome_at Q env s w false (some n) a f h = rw (a, f) tt

pub statement-at :
    {A : Type 0} (Q : A → Claim) (env : Env) (s : Statement A) (w : World)
    → OnOk Q (s w.db).0 (s w.db).1
    → OnOk Q (statement env s w).0 (statement env s w).1.db
statement-at Q env s w h = outcome_at Q env s w _ _ refl refl h

module _ {A B : Type 0} (Q : A → Claim) (R : B → Claim) where
  pub continue-Triple :
      (f : A → M B) (r : Result A) (w : World)
      → OnOk Q r w.db
      → ((a : A) → Triple (Q a) (f a) R)
      → OnOk R (continue r f w).0 (continue r f w).1.db
  continue-Triple f (ok a) w q k = (k a).at w q
  continue-Triple f (err e) w q k = tt

module _ {A : Type 0} {P : Claim} {Q : A → Claim} where
  pub Triple-pure :
      (a : A)
      → ((ws : List WalletRow) (es : List EntryRow) → P ws es → Q a ws es)
      → Triple P (pure a) Q
  Triple-pure a h = record { at = λ w p. h w.db.wallets w.db.entries p }

  pub Triple-raise : (e : Error) → Triple P (raise e) Q
  Triple-raise e = record { at = λ w p. tt }

  pub Triple-lift :
      (r : Result A)
      → ((a : A) → r ≡ ok a → (ws : List WalletRow) (es : List EntryRow) → P ws es → Q a ws es)
      → Triple P (lift r) Q
  Triple-lift (ok a) h = record { at = λ w p. h a refl w.db.wallets w.db.entries p }
  Triple-lift (err e) h = record { at = λ w p. tt }

  pub Triple-statement :
      (env : Env) (s : Statement A) → StatementTriple P s Q → Triple P (statement env s) Q
  Triple-statement env s h = record { at = λ w p. statement-at Q env s w (h w.db p) }

  pub Triple-if :
      (b : Bool) (m n : M A)
      → (b ≡ true → Triple P m Q)
      → (b ≡ false → Triple P n Q)
      → Triple P (if b then m else n) Q
  Triple-if true m n h k = h refl
  Triple-if false m n h k = k refl

module _ {A B : Type 0} {P : Claim} {Q : A → Claim} {R : B → Claim} where
  pub Triple-bind :
      (m : M A) (f : A → M B)
      → Triple P m Q
      → ((a : A) → Triple (Q a) (f a) R)
      → Triple P (m >>= f) R
  Triple-bind m f h k = record { at = λ w p. continue-Triple Q R f (m w).0 (m w).1 (h.at w p) k }

-- A statement that only reads.
pub on_read :
    {A : Type 0} (Q : A → Claim) (r : Result A) (db : Db)
    → ((a : A) → r ≡ ok a → Q a db.wallets db.entries)
    → OnOk Q r db
on_read Q (ok a) db h = h a refl
on_read Q (err e) db h = tt

weaker :
    {A : Type 0} (Q R : A → Claim) (r : Result A) (db : Db)
    → OnOk Q r db
    → ((a : A) (ws : List WalletRow) (es : List EntryRow) → Q a ws es → R a ws es)
    → OnOk R r db
weaker Q R (ok a) db q h = h a db.wallets db.entries q
weaker Q R (err e) db q h = tt

-- The rule of consequence.
pub Triple-consequence :
    {A : Type 0} {P P' : Claim} {Q Q' : A → Claim} (m : M A)
    → Triple P m Q
    → ((ws : List WalletRow) (es : List EntryRow) → P' ws es → P ws es)
    → ((a : A) (ws : List WalletRow) (es : List EntryRow) → Q a ws es → Q' a ws es)
    → Triple P' m Q'
Triple-consequence {Q = Q} {Q' = Q'} m t before after = record {
  at = λ w p. weaker Q Q' (m w).0 (m w).1.db (t.at w (before w.db.wallets w.db.entries p)) after;
}

-- A part of the claim that is no matter of the tables is a hypothesis.
pub Triple-given :
    {A : Type 0} {H : Type 0} {P : Claim} {Q : A → Claim} {m : M A}
    → (H → Triple P m Q)
    → Triple (λ ws es. H × P ws es) m Q
Triple-given t = record { at = λ w (h, p). (t h).at w p }

-- The claim of an action whose error the caller looks at.
abbrev pub Attempted : {A : Type 0} → (A → Claim) → Result A → Claim
Attempted Q (ok a) ws es = Q a ws es
Attempted Q (err e) ws es = Unit

attempted :
    {A : Type 0} (Q : A → Claim) (r : Result A) (db : Db)
    → OnOk Q r db
    → Attempted Q r db.wallets db.entries
attempted Q (ok a) db q = q
attempted Q (err e) db q = tt

pub Triple-attempt :
    {A : Type 0} {P : Claim} {Q : A → Claim} (env : Env) (s : Statement A)
    → StatementTriple P s Q
    → Triple P (attempt (statement env s)) (Attempted Q)
Triple-attempt {Q = Q} env s h = record {
  at = λ w p.
      attempted Q (statement env s w).0 (statement env s w).1.db
        ((Triple-statement {Q = Q} env s h).at w p);
}

-- An action that keeps every claim when it succeeds: it writes to neither table.
abbrev pub Leaves : {A : Type 0} → M A → Type 1
Leaves m = (P : Claim) → Triple P m (λ _. P)

-- A statement that writes to neither table.
pub record IsAside {A : Type 0} (s : Statement A) : Type 0 where
  pub wallets_left : (db : Db) → (s db).1.wallets ≡ db.wallets
  pub entries_left : (db : Db) → (s db).1.entries ≡ db.entries

carried :
    (P : Claim) {ws ws' : List WalletRow} {es es' : List EntryRow}
    → ws' ≡ ws
    → es' ≡ es
    → P ws es
    → P ws' es'
carried P p q h = rw (p, q) h

pub on_any :
    {A : Type 0} (P : Claim) (r : Result A) (db : Db) → P db.wallets db.entries → OnOk (λ _. P) r db
on_any P (ok a) db h = h
on_any P (err e) db h = tt

module _ {A : Type 0} where
  pub Leaves-pure : (a : A) → Leaves (pure a)
  Leaves-pure a P = Triple-pure a (λ ws es p. p)

  pub Leaves-raise : (e : Error) → Leaves (raise {A = A} e)
  Leaves-raise e P = Triple-raise e

  pub Leaves-lift : (r : Result A) → Leaves (lift r)
  Leaves-lift r P = Triple-lift r (λ a e ws es p. p)

  pub Leaves-if : (b : Bool) (m n : M A) → Leaves m → Leaves n → Leaves (if b then m else n)
  Leaves-if true m n h k = h
  Leaves-if false m n h k = k

  pub Leaves-statement : (env : Env) (s : Statement A) → IsAside s → Leaves (statement env s)
  Leaves-statement env s a P =
      Triple-statement env s
        (λ db p. on_any P (s db).0 (s db).1 (carried P (a.wallets_left db) (a.entries_left db) p))

  attempt_statement :
      (env : Env) (s : Statement A)
      → IsAside s
      → (P : Claim) (w : World) (b : Bool) (o : Option ℕ) → w.aborted ≡ b
      → env.fault w.calls ≡ o
      → P w.db.wallets w.db.entries
      → P (statement env s w).1.db.wallets (statement env s w).1.db.entries
  unfolding statement
  attempt_statement env s a P w true o e f p = rw e p
  attempt_statement env s a P w false none e f p =
      rw (e, f) (carried P (a.wallets_left w.db) (a.entries_left w.db) p)
  attempt_statement env s a P w false (some n) e f p = rw (e, f) p

  pub Leaves-attempt :
      (env : Env) (s : Statement A) → IsAside s → Leaves (attempt (statement env s))
  Leaves-attempt env s a P = record { at = λ w p. attempt_statement env s a P w _ _ refl refl p }

module _ {A B : Type 0} where
  pub Leaves-bind : (m : M A) (f : A → M B) → Leaves m → ((a : A) → Leaves (f a)) → Leaves (m >>= f)
  Leaves-bind m f h k P = Triple-bind m f (h P) (λ a. k a P)

pub Leaves-new_id : (env : Env) → Leaves (new_id env)
unfolding new_id
Leaves-new_id env P = record { at = λ w p. on_any P (new_id env w).0 (new_id env w).1.db p }

pub Leaves-read_clock : (env : Env) → Leaves (read_clock env)
unfolding read_clock
Leaves-read_clock env P = record { at = λ w p. p }

-- A unit of work keeps a claim, however it ends, if the claim holds of what its function leaves when
-- it succeeds.
execute_ending :
    {A : Type 0} (env : Env) (fn : M A) (P : Claim)
    → (w : World) → OnOk (λ _. P) (fn (opened w)).0 (fn (opened w)).1.db
    → (o o' : Option ℕ) → (b : Bool) → (r : Result A) → env.fault w.calls ≡ o
    → env.fault (fn (opened w)).1.calls ≡ o'
    → (fn (opened w)).1.aborted ≡ b
    → (fn (opened w)).0 ≡ r
    → P w.db.wallets w.db.entries
    → P (execute env fn w).1.db.wallets (execute env fn w).1.db.entries
unfolding execute
execute_ending env fn P w h (some n) o' b r e e' a q p = rw e p
execute_ending env fn P w h none o' b (err x) e e' a q p = rw (e, q) p
execute_ending env fn P w h none o' true (ok v) e e' a q p = rw (e, q, a) p
execute_ending env fn P w h none (some n) false (ok v) e e' a q p =
    rw (e, q, a, e') (at_either {A = Db} (λ db. P db.wallets db.entries) _ _ _ (rw q at h) p)
execute_ending env fn P w h none none false (ok v) e e' a q p = rw (e, q, a, e') (rw q at h)

pub execute-keeps_at :
    {A : Type 0} (env : Env) (fn : M A) (P : Claim) (w : World)
    → OnOk (λ _. P) (fn (opened w)).0 (fn (opened w)).1.db
    → P w.db.wallets w.db.entries
    → P (execute env fn w).1.db.wallets (execute env fn w).1.db.entries
execute-keeps_at env fn P w h p = execute_ending env fn P w h _ _ _ _ refl refl refl refl p

pub execute-keeps :
    {A : Type 0} (env : Env) (fn : M A) (P : Claim)
    → Triple P fn (λ _. P)
    → (w : World) → P w.db.wallets w.db.entries
    → P (execute env fn w).1.db.wallets (execute env fn w).1.db.entries
execute-keeps env fn P h w p = execute-keeps_at env fn P w (h.at (opened w) p) p
