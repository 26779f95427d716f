-- ===== src/UseCase/Process/Apply.antt =====
-- Replays, conflicts, and the application of a new operation.
use jungle_gaming.Prelude.{Bool, true, false, ◌&&◌, not, if◌then◌else◌, Option, none, some}
use jungle_gaming.Prelude.Bytes.{bytes_eq}
use jungle_gaming.Shared.{Result, ok, err, errors_is, not_found, Uuid, Time, id_equal}
use jungle_gaming.Money.{Money, equal}
use jungle_gaming.Wallet.{Wallet}
use jungle_gaming.Ledger.{Direction, debit, credit}
use jungle_gaming.Wagering.Kind.{Kind, bet, win, refund, is_reversal, is_bet}
use jungle_gaming.Wagering.Status.{status_eq, processed, is_terminal}
use jungle_gaming.Wagering.Failure.{FailureCode}
use jungle_gaming.Wagering.Transaction.{Transaction, FinancialResult, ExternalParams, new_external}
use jungle_gaming.Wagering.Transaction.Machine.{resolve_reference}
use jungle_gaming.Repository.Transactions
use jungle_gaming.UseCase.Monad.{
  Env, M, pure, raise, lift, attempt, ◌>>=◌, statement, new_id, read_clock,
}
use jungle_gaming.UseCase.Results.{
  TransactionResult, Request, no_money, err_idempotency_conflict, err_operation_reapplied,
}
use jungle_gaming.UseCase.Process.Settle.{persist_settled, persist_rejected, mark_pending, move}

abbrev replayed_balance : Option FinancialResult → Money
replayed_balance none = no_money
replayed_balance (some r) = r.balance

abbrev has_result : Option FinancialResult → Bool
has_result none = false
has_result (some r) = true

unfoldable pub replay_of : Transaction → TransactionResult
replay_of existing = record {
  transaction_id = existing.id;
  status = some existing.status;
  balance = replayed_balance existing.result;
  has_balance = has_result existing.result;
  failure_code = existing.failure_code;
  idempotent_replay = true;
}

-- eligibleForReversal
abbrev pub is_refund : Kind → Bool
is_refund refund = true
is_refund _ = false

unfoldable pub eligible_for_reversal : Kind → Kind → Bool
eligible_for_reversal refund referenced = is_bet referenced
eligible_for_reversal _ bet = true
eligible_for_reversal _ win = true
eligible_for_reversal _ refund = true
eligible_for_reversal _ _ = false

-- The four data that an operation and its reference share.
unfoldable pub agrees : Transaction → Request → Bool
agrees reference parsed =
    id_equal reference.wallet_id parsed.wallet_id
    && id_equal reference.player_id parsed.player_id
    && bytes_eq reference.round_id parsed.command.round_id
    && equal reference.amount parsed.amount

unfoldable pub reversal_rejection : Transaction → Request → Option FailureCode
reversal_rejection reference parsed =
    if not (status_eq reference.status processed)
    then some FailureCode.reference_not_processed
    else if not (eligible_for_reversal parsed.kind reference.kind)
    then some FailureCode.reference_not_processed
    else if not (agrees reference parsed)
    then some FailureCode.reference_mismatch
    else none

-- Undoing a credit is a debit.
abbrev pub reversal_direction : Kind → Direction
reversal_direction kind = if is_bet kind then credit else debit

module _ (env : Env) where
  -- The second query of findReplay.
  unfoldable pub replay_by_external_id : Result Transaction → M (Option TransactionResult)
  replay_by_external_id (ok applied) = raise err_operation_reapplied
  replay_by_external_id (err e) = if errors_is e not_found then pure none else raise e

  -- The first.
  unfoldable pub replay_by_key : Request → Result Transaction → M (Option TransactionResult)
  unfolding replay_by_external_id
  replay_by_key parsed (ok existing) =
      if not (bytes_eq existing.payload_hash parsed.hash)
      then raise err_idempotency_conflict
      else pure (some (replay_of existing))
  replay_by_key parsed (err e) = if not (errors_is e not_found) then raise e else do
    applied ← attempt (
        statement env (
          Transactions.find_by_external_id parsed.command.provider_id
            parsed.command.external_transaction_id))
    replay_by_external_id applied

  unfoldable pub find_replay : Request → M (Option TransactionResult)
  unfolding replay_by_key
  find_replay parsed = do
    existing ← attempt (
        statement env (
          Transactions.find_by_idempotency_key parsed.command.provider_id
            parsed.command.idempotency_key))
    replay_by_key parsed existing

  unfoldable pub apply_direct : Kind → Wallet → Transaction → Money → Time → M TransactionResult
  apply_direct bet target t amount now = move env target t debit amount now true
  apply_direct win target t amount now = move env target t credit amount now true
  apply_direct _ target t amount now = persist_settled env target t none now true

  -- The end of applyReversal: the reference is processed, eligible and in agreement.
  unfoldable pub reverse :
      Wallet → Transaction → Transaction → Request → Time → Bool → M TransactionResult
  reverse target t reference parsed now true =
      persist_rejected env t FailureCode.duplicate_reversal now true
  reverse target t reference parsed now false = do
    t' ← lift (resolve_reference t reference.id now)
    move env target t' (reversal_direction reference.kind) parsed.amount now true

  unfoldable pub check_reversal :
      Wallet → Transaction → Transaction → Request → Time → Option FailureCode → M TransactionResult
  unfolding reverse
  check_reversal target t reference parsed now (some code) = persist_rejected env t code now true
  check_reversal target t reference parsed now none = do
    reverted ← statement env (Transactions.has_successful_reversal reference.id)
    reverse target t reference parsed now reverted

  unfoldable pub with_reference :
      Wallet → Transaction → Request → Time → Result Transaction → M TransactionResult
  unfolding check_reversal
  with_reference target t parsed now (err e) =
      if errors_is e not_found then mark_pending env t now else raise e
  with_reference target t parsed now (ok reference) =
      if not (is_terminal reference.status)
      then mark_pending env t now
      else check_reversal target t reference parsed now (reversal_rejection reference parsed)

  unfoldable pub apply_reversal : Wallet → Transaction → Request → Time → M TransactionResult
  unfolding with_reference
  apply_reversal target t parsed now = do
    reference ← attempt (
        statement env (
          Transactions.find_by_external_id parsed.command.provider_id
            parsed.command.reference_external_transaction_id))
    with_reference target t parsed now reference

  abbrev pub params_of : Uuid → Request → Time → ExternalParams
  params_of id parsed now = record {
    id = id;
    kind = parsed.kind;
    wallet_id = parsed.wallet_id;
    player_id = parsed.player_id;
    amount = parsed.amount;
    provider_id = parsed.command.provider_id;
    external_id = parsed.command.external_transaction_id;
    idempotency_key = parsed.command.idempotency_key;
    payload_hash = parsed.hash;
    round_id = parsed.command.round_id;
    game_id = parsed.command.game_id;
    reference_external_id = parsed.command.reference_external_transaction_id;
    created_at = now;
  }

  -- The checks of the wallet against the command.
  unfoldable pub apply_to : Wallet → Request → Transaction → Time → M TransactionResult
  apply_to target parsed t now =
      if not (id_equal target.player_id parsed.player_id)
      then persist_rejected env t FailureCode.wallet_player_mismatch now true
      else if not (bytes_eq target.currency parsed.amount.currency)
      then persist_rejected env t FailureCode.currency_mismatch now true
      else if is_reversal parsed.kind
      then apply_reversal target t parsed now
      else apply_direct parsed.kind target t parsed.amount now

  unfoldable pub apply : Wallet → Request → M TransactionResult
  unfolding apply_to
  apply target parsed = do
    id ← new_id env
    now ← read_clock env
    t ← lift (new_external (params_of id parsed now))
    apply_to target parsed t now
