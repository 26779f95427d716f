-- ===== src/UseCase/Pending/Resume.antt =====
-- One pending operation: resume, waitOrExpire and requestFromPending.
use jungle_gaming.Prelude.{Bool, true, false, not, if◌then◌else◌, Option, none, some, []}
use jungle_gaming.Prelude.Int.{pos}
use jungle_gaming.Prelude.Int64.{add64}
use jungle_gaming.Shared.{Result, ok, err, errors_is, not_found, Time, add_duration}
use jungle_gaming.Wallet.{Wallet}
use jungle_gaming.Wagering.Status.{status_eq, is_terminal, pending_reference}
use jungle_gaming.Wagering.Failure.{FailureCode}
use jungle_gaming.Wagering.Transaction.{Transaction}
use jungle_gaming.Wagering.Transaction.Machine.{schedule_reference_retry, resolve_reference}
use jungle_gaming.Repository.Wallets
use jungle_gaming.Repository.Transactions
use jungle_gaming.UseCase.Monad.{Env, M, pure, raise, lift, attempt, ◌>>=◌, ◌>>◌, statement}
use jungle_gaming.UseCase.Results.{TransactionResult, Request, no_result}
use jungle_gaming.UseCase.Process.Settle.{persist_rejected, move}
use jungle_gaming.UseCase.Process.Apply.{reversal_rejection, reversal_direction}
use jungle_gaming.UseCase.Pending.Policy.{PendingReferencePolicy, reference_backoff, exhausted}

-- The fields that the source leaves out are empty.
unfoldable pub request_from_pending : Env → Transaction → Request
request_from_pending env t = record {
  command = record {
    idempotency_key = [];
    provider_id = t.provider_id;
    external_transaction_id = t.external_id;
    player_id = env.uuid_string t.player_id;
    wallet_id = env.uuid_string t.wallet_id;
    round_id = t.round_id;
    game_id = t.game_id;
    kind = [];
    money = record { amount = []; currency = [] };
    reference_external_transaction_id = t.reference_external_id;
  };
  hash = [];
  kind = t.kind;
  wallet_id = t.wallet_id;
  player_id = t.player_id;
  amount = t.amount;
}

-- The transaction that waitOrExpire schedules.
unfoldable pub rescheduled : PendingReferencePolicy → Transaction → Time → Result Transaction
rescheduled policy pending now =
    let attempts = add64 pending.attempt_count (pos 1) in
    schedule_reference_retry pending attempts
      (add_duration now (reference_backoff attempts policy.backoff_base policy.backoff_max)) now

module _ (env : Env) (policy : PendingReferencePolicy) where
  unfoldable pub wait : Transaction → Time → M TransactionResult
  wait pending now = do
    t' ← lift (rescheduled policy pending now)
    statement env (Transactions.update t')
    pure (record no_result { transaction_id = t'.id; status = some t'.status })

  unfoldable pub wait_or_expire : Transaction → Time → M TransactionResult
  unfolding wait
  wait_or_expire pending now =
      if exhausted policy pending now
      then persist_rejected env pending FailureCode.reference_not_found now false
      else wait pending now

  -- The end of resume, with the answer of HasSuccessfulReversal.
  unfoldable pub settle_reversal :
      Wallet → Transaction → Transaction → Time → Bool → M TransactionResult
  settle_reversal target pending reference now true =
      persist_rejected env pending FailureCode.duplicate_reversal now false
  settle_reversal target pending reference now false = do
    t' ← lift (resolve_reference pending reference.id now)
    move env target t' (reversal_direction reference.kind) t'.amount now false

  unfoldable pub settle_pending :
      Wallet → Transaction → Transaction → Time → Option FailureCode → M TransactionResult
  unfolding settle_reversal
  settle_pending target pending reference now (some code) =
      persist_rejected env pending code now false
  settle_pending target pending reference now none = do
    reverted ← statement env (Transactions.has_successful_reversal reference.id)
    settle_reversal target pending reference now reverted

  unfoldable pub resume_with :
      Wallet → Transaction → Time → Result Transaction → M TransactionResult
  unfolding wait_or_expire settle_pending
  resume_with target pending now (err e) =
      if errors_is e not_found then wait_or_expire pending now else raise e
  resume_with target pending now (ok reference) =
      if not (is_terminal reference.status)
      then wait_or_expire pending now
      else settle_pending target pending reference now
          (reversal_rejection reference (request_from_pending env pending))

  unfoldable pub resume : Transaction → Time → M TransactionResult
  unfolding resume_with
  resume pending now =
      if not (status_eq pending.status pending_reference) then pure no_result else do
        target ← statement env (Wallets.lock_by_id pending.wallet_id)
        reference ← attempt (
            statement env
              (Transactions.find_by_external_id pending.provider_id pending.reference_external_id))
        resume_with target pending now reference
