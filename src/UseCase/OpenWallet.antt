-- ===== src/UseCase/OpenWallet.antt =====
-- usecase/open_wallet.go: OpenWallet.
use jungle_gaming.Prelude.{if◌then◌else◌}
use jungle_gaming.Prelude.Bytes.{Bytes}
use jungle_gaming.Shared.{Result, ok, err, errors_is, with_cause, persistence_conflict}
use jungle_gaming.Money.{is_negative, is_zero}
use jungle_gaming.Money.Text
use jungle_gaming.Wallet.{Wallet, open_wallet, opening_movement}
use jungle_gaming.Ledger.{credit}
use jungle_gaming.Wagering.Transaction.Machine.{new_processed_opening}
use jungle_gaming.Repository.Wallets
use jungle_gaming.Repository.Transactions
use jungle_gaming.UseCase.Monad.{
  Env, M, pure, raise, lift, attempt, ◌>>=◌, ◌>>◌, statement, new_id, read_clock, execute,
}
use jungle_gaming.UseCase.Results.{MoneyInput, err_invalid_input, err_wallet_already_exists}
use jungle_gaming.UseCase.Outbox.{append_entry, append_opening_events}
use jungle_gaming.UseCase.Process.Parse.{parse_id_input}

-- OpenWalletCommand
pub record OpenCommand : Type 0 where
  pub player_id : Bytes
  pub initial_balance : MoneyInput

module _ (env : Env) where
  unfoldable pub record_opening : Wallet → M (Unit {0})
  record_opening opened = do
    transaction_id ← new_id env
    opening ← lift (
        new_processed_opening
          (record {
            id = transaction_id;
            wallet_id = opened.id;
            player_id = opened.player_id;
            amount = opened.balance;
            created_at = opened.created_at;
          })
          (record { balance = opened.balance; wallet_version = opened.version }))
    statement env (Transactions.create opening)
    append_entry env opened.id opening.id credit (opening_movement opened) opened.created_at
    append_opening_events env opened opening opened.created_at

  -- The error of Create, as the caller sees it.
  unfoldable pub created : Result (Unit {0}) → M (Unit {0})
  created (ok u) = pure tt
  created (err e) =
      if errors_is e persistence_conflict
      then raise (with_cause err_wallet_already_exists e)
      else raise e

  -- The function that runs in the unit of work.
  unfoldable pub store_opened : Wallet → M (Unit {0})
  unfolding created
  store_opened opened = do
    r ← attempt (statement env (Wallets.create opened))
    created r
    if is_zero opened.balance then pure tt else record_opening opened

  -- (*OpenWallet).Execute
  unfoldable pub open_for : OpenCommand → M Wallet
  open_for command = do
    player_id ← lift (parse_id_input env.uuid_parse command.player_id)
    initial ← lift (Text.parse command.initial_balance.amount command.initial_balance.currency)
    (if is_negative initial then raise err_invalid_input else pure tt)
    wallet_id ← new_id env
    now ← read_clock env
    opened ← lift (open_wallet wallet_id player_id initial now)
    execute env (store_opened opened)
    pure opened
