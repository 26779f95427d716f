-- ===== src/UseCase/Reconcile.antt =====
-- usecase/reconcile_wallet.go: ReconcileWallet.
use jungle_gaming.Prelude.{ℕ, Bool, ◌==◌, if◌then◌else◌}
use jungle_gaming.Shared.{Uuid}
use jungle_gaming.Money.{Money, zero_money, sub_money, is_zero}
use jungle_gaming.Repository.Wallets
use jungle_gaming.Repository.Entries
use jungle_gaming.UseCase.Monad.{Env, M, pure, lift, ◌>>=◌, statement, execute_read_only}

pub record ReconciliationResult : Type 0 where
  pub wallet_id : Uuid
  pub stored_balance : Money
  pub calculated_balance : Money
  pub difference : Money
  pub consistent : Bool
  pub checked_entries : ℕ

module _ (env : Env) where
  -- The function that runs in the read-only transaction.
  unfoldable pub compare_books : Uuid → M ReconciliationResult
  compare_books wallet_id = do
    target ← statement env (Wallets.find_by_id wallet_id)
    (summed, entries) ← statement env (Entries.sum_by_wallet wallet_id)
    let calculated = if entries == 0 then zero_money target.currency else summed
    difference ← lift (sub_money target.balance calculated)
    pure (record {
      wallet_id = wallet_id;
      stored_balance = target.balance;
      calculated_balance = calculated;
      difference = difference;
      consistent = is_zero difference;
      checked_entries = entries;
    })

  -- (*ReconcileWallet).Execute
  unfoldable pub reconcile : Uuid → M ReconciliationResult
  reconcile wallet_id = execute_read_only env (compare_books wallet_id)
