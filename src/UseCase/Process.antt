-- ===== src/UseCase/Process.antt =====
-- usecase/process_transaction.go: ProcessWagerTransaction.
pub mod Parse
pub mod Settle
pub mod Apply
use jungle_gaming.Prelude.{Option, none, some}
use jungle_gaming.Repository.Wallets
use jungle_gaming.UseCase.Monad.{Env, M, pure, lift, ◌>>=◌, ◌>>◌, statement, execute}
use jungle_gaming.UseCase.Results.{Command, TransactionResult, Request}
use Parse.{parse}
use Apply.{find_replay, apply}
use jungle_gaming.Wallet.{Wallet}

module _ (env : Env) where
  -- A replay is returned as it is; anything else is applied.
  unfoldable pub resume_or_apply : Wallet → Request → Option TransactionResult → M TransactionResult
  resume_or_apply target parsed (some replay) = pure replay
  resume_or_apply target parsed none = apply env target parsed

  unfoldable pub execute_in : Command → M TransactionResult
  unfolding resume_or_apply
  execute_in command = do
    parsed ← lift (parse env command)
    target ← statement env (Wallets.lock_by_id parsed.wallet_id)
    replay ← find_replay env parsed
    resume_or_apply target parsed replay

  -- (*ProcessWagerTransaction).Execute
  unfoldable pub process : Command → M TransactionResult
  process command = execute env (execute_in command)
