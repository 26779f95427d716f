-- ===== src/UseCase/Pending/Amounts.antt =====
-- The amounts of the stored operations under usecase/resolve_pending.go: a column of int64.
use jungle_gaming.Prelude.{
  arith, Bool, true, false, if◌then◌else◌, Bool-cases, inl, inr, not, List, [], ◌∷◌, All, Option,
  none, some,
}
use jungle_gaming.Prelude.Int64.{IsInt64}
use jungle_gaming.Shared.{Result, ok, err, errors_is, not_found, Time}
use jungle_gaming.Wallet.{Wallet}
use jungle_gaming.Wagering.Status.{status_eq, is_terminal, pending_reference}
use jungle_gaming.Wagering.Failure.{FailureCode}
use jungle_gaming.Wagering.Transaction.{Transaction}
use jungle_gaming.Repository.Rows.{TransactionRow, to_transaction_row}
use jungle_gaming.Repository.Tables.{Db, OutboxRecord, update_rows}
use jungle_gaming.Repository.Tables
use jungle_gaming.Repository.Wallets
use jungle_gaming.Repository.Entries
use jungle_gaming.Repository.Messages
use jungle_gaming.Repository.Transactions
use jungle_gaming.Repository.Transactions.{write_outcome}
use jungle_gaming.Repository.Pending.{claim_pending_references}
use jungle_gaming.UseCase.Monad.{Env, raise}
use jungle_gaming.UseCase.Process.Settle.{store, persist_rejected}
use jungle_gaming.UseCase.Process.Apply.{reversal_rejection}
use jungle_gaming.UseCase.Preserves.{
  Preserves, Safe, Preserves-pure, Preserves-raise, Preserves-lift, Preserves-if,
  Preserves-statement, Preserves-attempt, Preserves-bind, Preserves-read_clock,
}
use jungle_gaming.UseCase.Preserves.Settling.{Tolerates, persist_rejected_safe, move_safe}
use jungle_gaming.UseCase.Pending.Policy.{PendingReferencePolicy, exhausted}
use jungle_gaming.UseCase.Pending.Resume.{
  wait, wait_or_expire, settle_reversal, settle_pending, resume_with, resume, request_from_pending,
}
use jungle_gaming.UseCase.Pending.Tick.{resume_first, resume_next}

abbrev pub FitsColumn : TransactionRow → Type 0
FitsColumn row = IsInt64 row.amount_minor

abbrev pub AmountsFit : Db → Type 0
AmountsFit db = All FitsColumn db.transactions

amounts_Tolerates : Tolerates AmountsFit
unfolding Entries.append Wallets.update_balance Messages.append
amounts_Tolerates = record {
  entry = λ e db h. ground arith;
  balance = λ target db h. ground arith;
  event = λ e db h. ground arith;
}

outcome_fits :
    (test : TransactionRow → Bool) (new : TransactionRow) (rows : List TransactionRow)
    → All FitsColumn rows
    → All FitsColumn (update_rows test (write_outcome new) rows)
outcome_fits test new [] h = tt
outcome_fits test new (row ∷ rows) (i, h) = elim (Bool-cases (test row)) [
  | inl t ↦ rw t (i, outcome_fits test new rows h)
  | inr f ↦ rw f (i, outcome_fits test new rows h)
]

accepted_fits :
    (b : Bool) (r : Result (Unit {0})) (test : TransactionRow → Bool) (new : TransactionRow)
    (db : Db)
    → AmountsFit db
    → AmountsFit
        (if◌then◌else◌ {A = Result (Unit {0}) × Db} b
          (r, record db { transactions = update_rows test (write_outcome new) db.transactions })
          (err Tables.err_violation, db)).1
accepted_fits true r test new db h = outcome_fits test new db.transactions h
accepted_fits false r test new db h = h

update_fits : (t : Transaction) → Safe AmountsFit (Transactions.update t)
unfolding Transactions.update
update_fits t db h = accepted_fits _ _ _ (to_transaction_row t) db h

module _ (env : Env) (policy : PendingReferencePolicy) where
  stores_fit : (t : Transaction) → Preserves AmountsFit (store env false t)
  unfolding store
  stores_fit t = Preserves-statement env _ (update_fits t)

  rejected_fits :
      (t : Transaction) (code : FailureCode) (now : Time)
      → Preserves AmountsFit (persist_rejected env t code now false)
  rejected_fits t code now =
      persist_rejected_safe env AmountsFit amounts_Tolerates false stores_fit t code now

  waits_fit :
      (pending : Transaction) (now : Time)
      → Preserves AmountsFit (wait_or_expire env policy pending now)
  unfolding wait_or_expire wait
  waits_fit pending now =
      Preserves-if (exhausted policy pending now) _ (wait env policy pending now)
        (rejected_fits pending _ now)
        (Preserves-bind _ _ (Preserves-lift _) (λ t'.
          Preserves-bind _ _ (Preserves-statement env _ (update_fits t')) (λ u. Preserves-pure _)))

  reversal_fits :
      (target : Wallet) (pending reference : Transaction) (now : Time) (reverted : Bool)
      → Preserves AmountsFit (settle_reversal env policy target pending reference now reverted)
  unfolding settle_reversal
  reversal_fits target pending reference now true = rejected_fits pending _ now
  reversal_fits target pending reference now false =
      Preserves-bind _ _ (Preserves-lift _)
        (λ t'. move_safe env AmountsFit amounts_Tolerates false stores_fit target t' _ _ now)

  settled_fits :
      (target : Wallet) (pending reference : Transaction) (now : Time) (code : Option FailureCode)
      → Preserves AmountsFit (settle_pending env policy target pending reference now code)
  unfolding settle_pending Transactions.has_successful_reversal
  settled_fits target pending reference now (some code) = rejected_fits pending code now
  settled_fits target pending reference now none =
      Preserves-bind _ _ (Preserves-statement env _ (λ db h. h))
        (λ reverted. reversal_fits target pending reference now reverted)

  resumed_fits :
      (target : Wallet) (pending : Transaction) (now : Time) (r : Result Transaction)
      → Preserves AmountsFit (resume_with env policy target pending now r)
  unfolding resume_with
  resumed_fits target pending now (err e) =
      Preserves-if (errors_is e not_found) (wait_or_expire env policy pending now) (raise e)
        (waits_fit pending now) (Preserves-raise e)
  resumed_fits target pending now (ok reference) =
      Preserves-if (not (is_terminal reference.status)) (wait_or_expire env policy pending now)
        (settle_pending env policy target pending reference now
          (reversal_rejection reference (request_from_pending env pending)))
        (waits_fit pending now) (settled_fits target pending reference now _)

  resume_fits :
      (pending : Transaction) (now : Time) → Preserves AmountsFit (resume env policy pending now)
  unfolding resume Wallets.find_by_id Transactions.find_by_external_id
  resume_fits pending now =
      Preserves-if (not (status_eq pending.status pending_reference)) _ _ (Preserves-pure _) (
        Preserves-bind _ _ (Preserves-statement env _ (λ db h. h)) (λ target.
          Preserves-bind _ _ (Preserves-attempt _ (Preserves-statement env _ (λ db h. h)))
            (λ r. resumed_fits target pending now r)))

  first_fits :
      (now : Time) (claimed : List Transaction)
      → Preserves AmountsFit (resume_first env policy now claimed)
  unfolding resume_first
  first_fits now [] = Preserves-pure false
  first_fits now (pending ∷ rest) =
      Preserves-bind _ _ (resume_fits pending now) (λ r. Preserves-pure true)

  pub next_fits : Preserves AmountsFit (resume_next env policy)
  unfolding resume_next claim_pending_references
  next_fits = Preserves-bind _ _ (Preserves-read_clock env) (λ now.
      Preserves-bind _ _ (Preserves-statement env _ (λ db h. h))
        (λ claimed. first_fits now claimed))
