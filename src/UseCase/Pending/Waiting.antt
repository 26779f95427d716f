-- ===== src/UseCase/Pending/Waiting.antt =====
-- waitOrExpire of usecase/resolve_pending.go: how often an operation waits.
use jungle_gaming.Prelude.{
  ℕ, zero, suc, ◌==◌, ◌≡◌, refl, sym, ap, ◌∙◌, arith, Bool, true, false, Bool-cases, inl, inr, some,
  List, [], ◌∷◌,
}
use jungle_gaming.Prelude.Int.{ℤ, pos, ◌+ℤ◌, ◌≤ℤ◌, ◌<ℤ◌, int_laws}
use jungle_gaming.Prelude.Int64.{max_int64, add64, add64_lem}
use jungle_gaming.Shared.{Result, ok, err, Uuid, Time}
use jungle_gaming.Wagering.Status.{Status, pending_reference, rejected}
use jungle_gaming.Wagering.Failure.{FailureCode}
use jungle_gaming.Wagering.Transaction.{Transaction}
use jungle_gaming.Wagering.Transaction.Machine.{schedule_reference_retry, reject}
use jungle_gaming.Repository.Rows.{TransactionRow, to_transaction_row, to_domain}
use jungle_gaming.Repository.Tables.{Db, find_row, update_rows}
use jungle_gaming.Repository.Transactions
use jungle_gaming.Repository.Transactions.{write_outcome, update_accepted}
use jungle_gaming.Repository.Scanned.{to_domain-IsScanned}
use jungle_gaming.UseCase.Monad.{Env, World}
use jungle_gaming.UseCase.Results.{TransactionResult}
use jungle_gaming.UseCase.Process.Settle.{persist_rejected, store}
use jungle_gaming.UseCase.Outbox.{append_rejected_event}
use jungle_gaming.UseCase.Gives.{
  OnSuccess, Gives, Gives-pure, Gives-statement, Gives-lift, Gives-constant, Gives-bind,
}
use jungle_gaming.UseCase.Pending.Policy.{PendingReferencePolicy, exhausted}
use jungle_gaming.UseCase.Pending.Resume.{rescheduled, wait, wait_or_expire}

-- The waits of one stored operation: the worker meets it at some instant with some database, waits, and the
-- next time has the operation that its row gives then. Only the rows of one wait are looked at: between
-- two of them the database may change otherwise.
pub data Waits (policy : PendingReferencePolicy) : ℕ → Transaction → Transaction → Type 0 where
  met : {t : Transaction} → Waits policy 0 t t
  again :
      {n : ℕ} {t t' u : Transaction}
      → Waits policy n t t'
      → (env : Env) (now : Time) (w w' : World) (r : TransactionResult) (row : TransactionRow)
      → wait_or_expire env policy t' now w ≡ (ok r, w')
      → r.status ≡ some pending_reference
      → find_row (λ stored. stored.id == t'.id) w'.db.transactions ≡ some row
      → to_domain row ≡ ok u
      → Waits policy (suc n) t u

-- The row that an UPDATE has written.
written_row :
    (id : Uuid) (new row : TransactionRow) (rows : List TransactionRow)
    → find_row
        (λ stored. stored.id == id)
        (update_rows (λ stored. stored.id == id) (write_outcome new) rows)
      ≡ some row
    → row.attempt_count ≡ new.attempt_count
written_row id new row [] h = cc
written_row id new row (x ∷ rows) h = elim (Bool-cases (x.id == id)) [
  | inl t ↦ let e = rw (t, t) at h in ground arith
  | inr f ↦ written_row id new row rows (rw (f, f) at h)
]

-- A reschedule writes the attempts.
rescheduled_fields :
    (policy : PendingReferencePolicy) (t t' : Transaction) (now : Time)
    → rescheduled policy t now ≡ ok t'
    → (t'.id ≡ t.id) × (t'.attempt_count ≡ add64 t.attempt_count (pos 1))
unfolding rescheduled schedule_reference_retry
rescheduled_fields policy t t' now h = ground arith

not_exhausted :
    (policy : PendingReferencePolicy) (t : Transaction) (now : Time)
    → exhausted policy t now ≡ false
    → add64 t.attempt_count (pos 1) <ℤ policy.max_attempts
unfolding exhausted
not_exhausted policy t now h = ground arith

rejected_status :
    (t t' : Transaction) (code : FailureCode) (now : Time)
    → reject t (some code) now ≡ ok t'
    → t'.status ≡ rejected
unfolding reject
rejected_status t t' code now h = ground arith

-- The row of the transaction has the attempts.
abbrev HasAttempts : Uuid → ℤ → Db → Type 0
HasAttempts id attempts db =
    (row : TransactionRow)
    → find_row (λ stored. stored.id == id) db.transactions ≡ some row
    → row.attempt_count ≡ attempts

on_all : {A : Type 0} (Q : Db → Type 0) (r : Result A) (db : Db) → Q db → OnSuccess (λ a. Q) r db
on_all Q (ok a) db q = q
on_all Q (err e) db q = tt

module _ (t : Transaction) (id : Uuid) (attempts : ℤ)
    (same : (t.id ≡ id) × (t.attempt_count ≡ attempts)) where
  updated :
      (db : Db) (fits : Bool)
      → update_accepted
          (find_row (λ stored. stored.id == t.id) db.transactions)
          (to_transaction_row t)
          db
        ≡ fits
      → OnSuccess
          (λ u. HasAttempts id attempts)
          (Transactions.update t db).0
          (Transactions.update t db).1
  unfolding Transactions.update to_transaction_row
  updated db true h = rw h (
      on_all (HasAttempts id attempts) _ _ (λ row found.
        written_row t.id (to_transaction_row t) row db.transactions (rw (sym same.0) at found)
        ∙ same.1))
  updated db false h = rw h tt

module _ (env : Env) (policy : PendingReferencePolicy) where
  wait_gives :
      (t : Transaction) (now : Time)
      → Gives
          (λ db. Unit)
          (wait env policy t now)
          (λ r. HasAttempts t.id (add64 t.attempt_count (pos 1)))
  unfolding wait
  wait_gives t now =
      Gives-bind {Q = λ t' db. (t'.id ≡ t.id) × (t'.attempt_count ≡ add64 t.attempt_count (pos 1))}
        _ _ (Gives-lift _ (λ t' db h u. rescheduled_fields policy t t' now h))
        (λ t'.
          Gives-bind {Q = λ u. HasAttempts t.id (add64 t.attempt_count (pos 1))} _ _
            (Gives-statement env _
              (λ db same. updated t' t.id (add64 t.attempt_count (pos 1)) same db _ refl))
            (λ u. Gives-pure _ (λ db h. h)))

  reject_gives :
      (t : Transaction) (code : FailureCode) (now : Time)
      → Gives
          (λ db. Unit)
          (persist_rejected env t code now false)
          (λ r db. r.status ≡ some rejected)
  unfolding persist_rejected
  reject_gives t code now =
      Gives-bind {Q = λ t' db. t'.status ≡ rejected} _ _
        (Gives-lift _ (λ t' db h u. rejected_status t t' code now h))
        (λ t'. Gives-bind (store env false t') _ (Gives-constant _) (λ u.
          Gives-bind (append_rejected_event env t' now) _ (Gives-constant _)
            (λ u. Gives-pure _ (λ db h. ap (λ (s : Status). some s) h))))

  -- An operation that is pending still was not exhausted, and its row has one attempt more.
  abbrev Waited : Transaction → Time → TransactionResult → Db → Type 0
  Waited t now r db =
      r.status ≡ some pending_reference
      → (exhausted policy t now ≡ false) × HasAttempts t.id (add64 t.attempt_count (pos 1)) db

  weaker :
      {A : Type 0} (Q R : A → Db → Type 0) (r : Result A) (db : Db)
      → ((a : A) → Q a db → R a db)
      → OnSuccess Q r db
      → OnSuccess R r db
  weaker Q R (ok a) db h q = h a q
  weaker Q R (err e) db h q = tt

  waited :
      (t : Transaction) (now : Time) (w : World) (b : Bool)
      → exhausted policy t now ≡ b
      → OnSuccess
          (Waited t now)
          (wait_or_expire env policy t now w).0
          (wait_or_expire env policy t now w).1.db
  unfolding wait_or_expire
  waited t now w true h = rw h (
      weaker (λ r db. r.status ≡ some rejected) (Waited t now) _ _ (λ r s pending. absurd cc)
        ((reject_gives t FailureCode.reference_not_found now).at w tt))
  waited t now w false h = rw h (
      weaker (λ r. HasAttempts t.id (add64 t.attempt_count (pos 1))) (Waited t now) _ _
        (λ r q pending. (h, q)) ((wait_gives t now).at w tt))

  one_more :
      (t u : Transaction) (now : Time) (w w' : World) (r : TransactionResult) (row : TransactionRow)
      → wait_or_expire env policy t now w ≡ (ok r, w')
      → r.status ≡ some pending_reference
      → find_row (λ stored. stored.id == t.id) w'.db.transactions ≡ some row
      → to_domain row ≡ ok u
      → (u.attempt_count ≡ add64 t.attempt_count (pos 1))
        × (add64 t.attempt_count (pos 1) <ℤ policy.max_attempts)
  one_more t u now w w' r row run s found read =
      let (x, counted) = (rw run at (waited t now w _ refl)) s in
      ((to_domain-IsScanned row u read).attempts ∙ counted row found, not_exhausted policy t now x)

module _ (policy : PendingReferencePolicy) (fits : policy.max_attempts ≤ℤ max_int64)
    (t : Transaction) (low : pos 0 ≤ℤ t.attempt_count) (high : t.attempt_count <ℤ max_int64) where
  next_count :
      (n : ℕ) (a b : ℤ)
      → a ≡ t.attempt_count +ℤ pos n
      → a <ℤ max_int64
      → b ≡ add64 a (pos 1)
      → b ≡ t.attempt_count +ℤ pos (suc n)
  next_count n a b e h i =
      i ∙ add64_lem a (pos 1) (rw e (omega int_laws), omega int_laws) ∙ rw e (omega int_laws)

  counted :
      (n : ℕ) (u : Transaction)
      → Waits policy n t u
      → (u.attempt_count ≡ t.attempt_count +ℤ pos n) × (u.attempt_count <ℤ max_int64)
  counted zero u met = (omega int_laws, high)
  counted (suc n) u (again {t' = t'} waits env now w w' r row run s found read) =
      let (e, below) = counted n t' waits in
      let (a, more) = one_more env policy t' u now w w' r row run s found read in
      (next_count n t'.attempt_count u.attempt_count e below a, rw a (omega arith))

  -- The worker waits for a reference a bounded number of times, and counts: an operation that waitOrExpire
  -- has left pending, once or any number of times in turn, has been counted one attempt for each, and its
  -- attempts stay below the limit of the policy, so that the waits are fewer than the limit. The first
  -- attempts are not negative and below the largest int64, which the limit does not exceed.
  pub Waits-bound :
      (n : ℕ) (u : Transaction)
      → Waits policy (suc n) t u
      → (u.attempt_count ≡ t.attempt_count +ℤ pos (suc n))
        × (u.attempt_count <ℤ policy.max_attempts)
        × (pos (suc n) <ℤ policy.max_attempts)
  Waits-bound n u (again {t' = t'} waits env now w w' r row run s found read) =
      let (e, below) = counted n t' waits in
      let (a, more) = one_more env policy t' u now w w' r row run s found read in
      let step = next_count n t'.attempt_count u.attempt_count e below a in
      let limit : u.attempt_count <ℤ policy.max_attempts = rw a more in
      let bound : (t.attempt_count +ℤ pos (suc n)) <ℤ policy.max_attempts = rw step at limit in
      (step, limit, omega int_laws)
