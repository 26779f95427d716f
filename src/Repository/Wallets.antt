-- ===== src/Repository/Wallets.antt =====
-- repository/wallet.go with the constraints of the table `wallets`.
use jungle_gaming.Prelude.{Bool, ◌==◌, ◌&&◌, ◌||◌, not, if◌then◌else◌, ◌∷◌, length}
use jungle_gaming.Prelude.Bytes.{Bytes, bytes_eq}
use jungle_gaming.Prelude.Int.{pos, leb_ℤ}
use jungle_gaming.Shared.{ok, err, Uuid}
use jungle_gaming.Money.{all_upper}
use jungle_gaming.Wallet.{Wallet}
use jungle_gaming.Repository.Rows.{WalletRow, to_wallet_row, rehydrate_wallet}
use jungle_gaming.Repository.Tables.{
  Db, Statement, find_row, exists_row, update_rows, count_rows, require_single_row, scan_row,
  err_violation,
}

-- CHECK (currency ~ '^[A-Z]{3}$')
abbrev pub is_iso4217 : Bytes → Bool
is_iso4217 currency = length currency == 3 && all_upper currency

-- The CHECK constraints of a row.
abbrev pub wallet_checks : WalletRow → Bool
wallet_checks row =
    is_iso4217 row.currency && leb_ℤ (pos 0) row.balance_minor && leb_ℤ (pos 1) row.version

-- PRIMARY KEY (id) and UNIQUE (player_id, currency); UNIQUE (id, currency) follows.
abbrev pub wallet_collides : WalletRow → WalletRow → Bool
wallet_collides row other =
    other.id == row.id || (other.player_id == row.player_id && bytes_eq other.currency row.currency)

-- Every constraint of the table.
unfoldable pub admits : WalletRow → Db → Bool
admits row db = wallet_checks row && not (exists_row (wallet_collides row) db.wallets)

unfoldable pub create : Wallet → Statement (Unit {0})
unfolding admits
create target db =
    if admits (to_wallet_row target) db
    then (ok tt, record db { wallets = to_wallet_row target ∷ db.wallets })
    else (err err_violation, db)

-- LockByID and FindByID send the same query but for the lock, which the model has no need of: one unit
-- of work runs at a time.
unfoldable pub find_by_id : Uuid → Statement Wallet
find_by_id id db = (scan_row rehydrate_wallet (find_row (λ row. row.id == id) db.wallets), db)

abbrev pub lock_by_id : Uuid → Statement Wallet
lock_by_id = find_by_id

-- SET balance_minor, version and updated_at.
abbrev pub write_balance : Wallet → WalletRow → WalletRow
write_balance target row = record row {
  balance_minor = target.balance.minor;
  version = target.version;
  updated_at = target.updated_at;
}

-- The CHECK constraints of the columns that it writes.
unfoldable pub balance_checks : Wallet → Bool
balance_checks target = leb_ℤ (pos 0) target.balance.minor && leb_ℤ (pos 1) target.version

unfoldable pub update_balance : Wallet → Statement (Unit {0})
unfolding balance_checks
update_balance target db =
    let fits = λ (row : WalletRow). row.id == target.id in
    if balance_checks target
    then (
      require_single_row (count_rows fits db.wallets),
      record db { wallets = update_rows fits (write_balance target) db.wallets },
    )
    else (err err_violation, db)
