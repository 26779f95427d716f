-- ===== src/UseCase/Preserves/Processing.antt =====
-- ExecuteIn of usecase/process_transaction.go as a run that keeps a predicate of the database.
use jungle_gaming.Prelude.{Bool, true, false, Option, none, some, not}
use jungle_gaming.Prelude.Bytes.{bytes_eq}
use jungle_gaming.Shared.{Result, ok, err, errors_is, not_found, Time, id_equal}
use jungle_gaming.Money.{Money}
use jungle_gaming.Wallet.{Wallet}
use jungle_gaming.Wagering.Kind.{Kind, opening, bet, win, loss, refund, rollback, is_reversal}
use jungle_gaming.Wagering.Status.{is_terminal}
use jungle_gaming.Wagering.Failure.{FailureCode}
use jungle_gaming.Wagering.Transaction.{Transaction}
use jungle_gaming.Repository.Tables.{Db}
use jungle_gaming.Repository.Wallets
use jungle_gaming.Repository.Transactions
use jungle_gaming.UseCase.Monad.{Env, raise}
use jungle_gaming.UseCase.Results.{Command, Request, TransactionResult}
use jungle_gaming.UseCase.Process.{execute_in, resume_or_apply}
use jungle_gaming.UseCase.Process.Settle.{store, persist_settled, persist_rejected, mark_pending}
use jungle_gaming.UseCase.Outbox.{append_pending_reference_event}
use jungle_gaming.UseCase.Process.Apply.{
  find_replay, replay_by_key, replay_by_external_id, apply_direct, reverse, reversal_rejection,
  check_reversal, with_reference, apply_reversal, apply_to, apply,
}
use jungle_gaming.UseCase.Preserves.{
  Preserves, Safe, Preserves-pure, Preserves-raise, Preserves-lift, Preserves-if,
  Preserves-statement, Preserves-attempt, Preserves-bind, Preserves-new_id, Preserves-read_clock,
}
use jungle_gaming.UseCase.Preserves.Settling.{
  Tolerates, persist_settled_safe, persist_rejected_safe, move_safe, transaction_event_safe,
}

module _ (env : Env) (P : Db → Type 0) (s : Tolerates P)
    (created : (t : Transaction) → Safe P (Transactions.create t)) where
  stores_safe : (t : Transaction) → Preserves P (store env true t)
  unfolding store
  stores_safe t = Preserves-statement env _ (created t)

  rejected_safe :
      (t : Transaction) (code : FailureCode) (now : Time)
      → Preserves P (persist_rejected env t code now true)
  rejected_safe t code now = persist_rejected_safe env P s true stores_safe t code now

  settled_safe :
      (target : Wallet) (t : Transaction) (now : Time)
      → Preserves P (persist_settled env target t none now true)
  settled_safe target t now = persist_settled_safe env P s true stores_safe target t none now

  mark_pending_safe : (t : Transaction) (now : Time) → Preserves P (mark_pending env t now)
  unfolding mark_pending append_pending_reference_event
  mark_pending_safe t now = Preserves-bind _ _ (Preserves-lift _) (λ t'.
      Preserves-bind _ _ (Preserves-statement env _ (created t'))
        (λ u. Preserves-bind _ _ (transaction_event_safe env P s t' _ now) (λ v. Preserves-pure _)))

  by_external_id_safe : (r : Result Transaction) → Preserves P (replay_by_external_id env r)
  unfolding replay_by_external_id
  by_external_id_safe (ok t) = Preserves-raise _
  by_external_id_safe (err e) =
      Preserves-if (errors_is e not_found) _ _ (Preserves-pure none) (Preserves-raise e)

  by_key_safe :
      (parsed : Request) (r : Result Transaction) → Preserves P (replay_by_key env parsed r)
  unfolding replay_by_key Transactions.find_by_external_id
  by_key_safe parsed (ok t) =
      Preserves-if (not (bytes_eq t.payload_hash parsed.hash)) _ _ (Preserves-raise _)
        (Preserves-pure _)
  by_key_safe parsed (err e) = Preserves-if (not (errors_is e not_found)) _ _ (Preserves-raise e) (
      Preserves-bind _ _ (Preserves-attempt _ (Preserves-statement env _ (λ db h. h)))
        (λ r. by_external_id_safe r))

  find_replay_safe : (parsed : Request) → Preserves P (find_replay env parsed)
  unfolding find_replay Transactions.find_by_idempotency_key
  find_replay_safe parsed =
      Preserves-bind _ _ (Preserves-attempt _ (Preserves-statement env _ (λ db h. h)))
        (λ r. by_key_safe parsed r)

  direct_safe :
      (kind : Kind) (target : Wallet) (t : Transaction) (amount : Money) (now : Time)
      → Preserves P (apply_direct env kind target t amount now)
  unfolding apply_direct
  direct_safe bet target t amount now = move_safe env P s true stores_safe target t _ amount now
  direct_safe win target t amount now = move_safe env P s true stores_safe target t _ amount now
  direct_safe loss target t amount now = settled_safe target t now
  direct_safe opening target t amount now = settled_safe target t now
  direct_safe refund target t amount now = settled_safe target t now
  direct_safe rollback target t amount now = settled_safe target t now

  module _ (target : Wallet) (parsed : Request) (t : Transaction) (now : Time) where
    reverse_safe :
        (reference : Transaction) (reverted : Bool)
        → Preserves P (reverse env target t reference parsed now reverted)
    unfolding reverse
    reverse_safe reference true = rejected_safe t _ now
    reverse_safe reference false =
        Preserves-bind _ _ (Preserves-lift _)
          (λ t'. move_safe env P s true stores_safe target t' _ parsed.amount now)

    check_safe :
        (reference : Transaction) (code : Option FailureCode)
        → Preserves P (check_reversal env target t reference parsed now code)
    unfolding check_reversal Transactions.has_successful_reversal
    check_safe reference (some code) = rejected_safe t code now
    check_safe reference none =
        Preserves-bind _ _ (Preserves-statement env _ (λ db h. h)) (λ r. reverse_safe reference r)

    reference_safe :
        (r : Result Transaction) → Preserves P (with_reference env target t parsed now r)
    unfolding with_reference
    reference_safe (err e) =
        Preserves-if (errors_is e not_found) (mark_pending env t now) (raise e)
          (mark_pending_safe t now) (Preserves-raise e)
    reference_safe (ok r) =
        Preserves-if (not (is_terminal r.status)) (mark_pending env t now)
          (check_reversal env target t r parsed now (reversal_rejection r parsed))
          (mark_pending_safe t now) (check_safe r _)

    reversal_safe : Preserves P (apply_reversal env target t parsed now)
    unfolding apply_reversal Transactions.find_by_external_id
    reversal_safe =
        Preserves-bind _ _ (Preserves-attempt _ (Preserves-statement env _ (λ db h. h)))
          (λ r. reference_safe r)

    apply_to_safe : Preserves P (apply_to env target parsed t now)
    unfolding apply_to
    apply_to_safe =
        Preserves-if (not (id_equal target.player_id parsed.player_id)) _ _ (rejected_safe t _ now)
          (Preserves-if (not (bytes_eq target.currency parsed.amount.currency)) _ _
            (rejected_safe t _ now)
            (Preserves-if (is_reversal parsed.kind) _
              (apply_direct env parsed.kind target t parsed.amount now) reversal_safe
              (direct_safe parsed.kind target t parsed.amount now)))

  apply_safe : (target : Wallet) (parsed : Request) → Preserves P (apply env target parsed)
  unfolding apply
  apply_safe target parsed = Preserves-bind _ _ (Preserves-new_id env) (λ id.
      Preserves-bind _ _ (Preserves-read_clock env)
        (λ now. Preserves-bind _ _ (Preserves-lift _) (λ t. apply_to_safe target parsed t now)))

  resumed_safe :
      (target : Wallet) (parsed : Request) (replay : Option TransactionResult)
      → Preserves P (resume_or_apply env target parsed replay)
  unfolding resume_or_apply
  resumed_safe target parsed (some r) = Preserves-pure r
  resumed_safe target parsed none = apply_safe target parsed

  pub execute_in_safe : (c : Command) → Preserves P (execute_in env c)
  unfolding execute_in Wallets.find_by_id
  execute_in_safe c = Preserves-bind _ _ (Preserves-lift _) (λ parsed.
      Preserves-bind _ _ (Preserves-statement env _ (λ db h. h)) (λ target.
        Preserves-bind _ _ (find_replay_safe parsed) (λ replay. resumed_safe target parsed replay)))
