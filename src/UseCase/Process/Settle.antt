-- ===== src/UseCase/Process/Settle.antt =====
-- How an operation ends: settled with its movement, rejected, or pending on its reference. `create`
-- tells a new operation from one that is registered already, which the worker of references resumes.
use jungle_gaming.Prelude.{Bool, true, false, Option, none, some, if◌then◌else◌}
use jungle_gaming.Shared.{Result, ok, err, errors_is, insufficient_funds, Time}
use jungle_gaming.Money.{Money}
use jungle_gaming.Wallet
use jungle_gaming.Wallet.{Wallet, Movement}
use jungle_gaming.Ledger.{Direction, debit, credit}
use jungle_gaming.Wagering.Kind.{Kind, is_reversal}
use jungle_gaming.Wagering.Failure.{FailureCode}
use jungle_gaming.Wagering.Transaction.{Transaction}
use jungle_gaming.Wagering.Transaction.Machine.{mark_processed, mark_pending_reference, reject}
use jungle_gaming.Repository.Wallets
use jungle_gaming.Repository.Transactions
use jungle_gaming.UseCase.Monad.{Env, M, pure, raise, lift, ◌>>=◌, ◌>>◌, statement}
use jungle_gaming.UseCase.Results.{TransactionResult, no_money}
use jungle_gaming.UseCase.Outbox.{
  Settlement, append_entry, append_processed_events, append_rejected_event,
  append_pending_reference_event,
}

-- insufficientFundsCode
abbrev pub insufficient_funds_code : Kind → FailureCode
insufficient_funds_code kind =
    if is_reversal kind
    then FailureCode.reversal_exceeds_balance
    else FailureCode.insufficient_funds

-- The call of Credit or Debit.
abbrev pub moved_by : Direction → Wallet → Money → Time → Result (Wallet × Movement)
moved_by credit target amount now = Wallet.credit target amount now
moved_by debit target amount now = Wallet.debit target amount now

module _ (env : Env) where
  unfoldable pub store : Bool → Transaction → M (Unit {0})
  store true t = statement env (Transactions.create t)
  store false t = statement env (Transactions.update t)

  -- The entry and the balance of the movement, if there was one.
  unfoldable pub record_movement : Wallet → Transaction → Option Settlement → Time → M (Unit {0})
  record_movement target t none now = pure tt
  record_movement target t (some applied) now = do
    append_entry env target.id t.id applied.direction applied.movement now
    statement env (Wallets.update_balance target)

  unfoldable pub persist_settled :
      Wallet → Transaction → Option Settlement → Time → Bool → M TransactionResult
  persist_settled target t applied now create = do
    t' ← lift (
        mark_processed t (record { balance = target.balance; wallet_version = target.version }) now)
    store create t'
    record_movement target t' applied now
    append_processed_events env t' applied now
    pure (record {
      transaction_id = t'.id;
      status = some t'.status;
      balance = target.balance;
      has_balance = true;
      failure_code = none;
      idempotent_replay = false;
    })

  unfoldable pub persist_rejected : Transaction → FailureCode → Time → Bool → M TransactionResult
  persist_rejected t code now create = do
    t' ← lift (reject t (some code) now)
    store create t'
    append_rejected_event env t' now
    pure (record {
      transaction_id = t'.id;
      status = some t'.status;
      balance = no_money;
      has_balance = false;
      failure_code = some code;
      idempotent_replay = false;
    })

  unfoldable pub mark_pending : Transaction → Time → M TransactionResult
  mark_pending t now = do
    t' ← lift (mark_pending_reference t now)
    statement env (Transactions.create t')
    append_pending_reference_event env t' now
    pure (record {
      transaction_id = t'.id;
      status = some t'.status;
      balance = no_money;
      has_balance = false;
      failure_code = none;
      idempotent_replay = false;
    })

  unfoldable pub settle_or_reject :
      Transaction → Direction → Time → Bool → Result (Wallet × Movement) → M TransactionResult
  settle_or_reject t direction now create (ok (target, movement)) =
      persist_settled target t (some (record { direction = direction; movement = movement })) now
        create
  settle_or_reject t direction now create (err e) =
      if errors_is e insufficient_funds
      then persist_rejected t (insufficient_funds_code t.kind) now create
      else raise e

  -- move and moveExisting
  unfoldable pub move : Wallet → Transaction → Direction → Money → Time → Bool → M TransactionResult
  unfolding settle_or_reject
  move target t direction amount now create =
      settle_or_reject t direction now create (moved_by direction target amount now)
