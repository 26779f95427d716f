-- ===== src/Repository/Entries.antt =====
-- repository/ledger.go with the constraints of the table `wallet_ledger_entries`.
use jungle_gaming.Prelude.{
  ℕ, suc, Bool, true, false, ◌==◌, ltb, ◌&&◌, ◌||◌, not, if◌then◌else◌, Option, none, some, List,
  [], ◌∷◌,
}
use jungle_gaming.Prelude.Bytes.{Bytes, codes, bytes_eq}
use jungle_gaming.Prelude.Int.{ℤ, pos, ◌+ℤ◌, ◌-ℤ◌, ltb_ℤ, leb_ℤ, eqb_ℤ}
use jungle_gaming.Prelude.Int64.{in_int64}
use jungle_gaming.Shared.{Result, ok, err, ◌>>=◌, Uuid, wrapped, external}
use jungle_gaming.Money.{Money, parse_currency, from_minor_units}
use jungle_gaming.Ledger.{Entry}
use jungle_gaming.Repository.Rows.{EntryRow, WalletRow, TransactionRow, to_entry_row}
use jungle_gaming.Repository.Tables.{Db, Statement, exists_row, err_violation}

abbrev pub is_credit : EntryRow → Bool
is_credit row = bytes_eq row.direction (codes "CREDIT")

abbrev pub is_debit : EntryRow → Bool
is_debit row = bytes_eq row.direction (codes "DEBIT")

-- The CHECK constraints of a row.
abbrev pub entry_checks : EntryRow → Bool
entry_checks row =
    ltb_ℤ (pos 0) row.amount_minor
    && (leb_ℤ (pos 0) row.balance_before_minor && leb_ℤ (pos 0) row.balance_after_minor)
    && ((is_credit row
          && eqb_ℤ row.balance_after_minor (row.balance_before_minor +ℤ row.amount_minor))
        || (is_debit row
            && eqb_ℤ row.balance_after_minor (row.balance_before_minor -ℤ row.amount_minor)))

-- PRIMARY KEY (id) and UNIQUE (wallet_id, transaction_id).
abbrev pub entry_collides : EntryRow → EntryRow → Bool
entry_collides row other =
    other.id == row.id
    || (other.wallet_id == row.wallet_id && other.transaction_id == row.transaction_id)

-- FOREIGN KEY (wallet_id, currency) REFERENCES wallets (id, currency)
abbrev pub has_wallet : Uuid → Bytes → WalletRow → Bool
has_wallet id currency row = row.id == id && bytes_eq row.currency currency

abbrev pub has_transaction : Uuid → TransactionRow → Bool
has_transaction id row = row.id == id

-- Every constraint of the table, with the foreign keys.
unfoldable pub admits : EntryRow → Db → Bool
admits row db =
    entry_checks row
    && not (exists_row (entry_collides row) db.entries)
    && exists_row (has_wallet row.wallet_id row.currency) db.wallets
    && exists_row (has_transaction row.transaction_id) db.transactions

unfoldable pub append : Entry → Statement (Unit {0})
unfolding admits
append entry db =
    if admits (to_entry_row entry) db
    then (ok tt, record db { entries = to_entry_row entry ∷ db.entries })
    else (err err_violation, db)

-- CASE WHEN direction = 'CREDIT' THEN amount_minor ELSE -amount_minor END
abbrev pub signed_amount : EntryRow → ℤ
signed_amount row = if is_credit row then row.amount_minor else pos 0 -ℤ row.amount_minor

-- COALESCE(SUM(...), 0), COUNT(*) and MIN(currency) over the rows of one wallet.
unfoldable pub sum_entries : Uuid → List EntryRow → ℤ
sum_entries id [] = pos 0
sum_entries id (row ∷ rows) =
    let rest = sum_entries id rows in
    if row.wallet_id == id then signed_amount row +ℤ rest else rest

unfoldable pub count_entries : Uuid → List EntryRow → ℕ
count_entries id [] = 0
count_entries id (row ∷ rows) =
    let rest = count_entries id rows in if row.wallet_id == id then suc rest else rest

-- The order of texts, byte by byte.
unfoldable pub bytes_lt : Bytes → Bytes → Bool
bytes_lt s [] = false
bytes_lt [] (d ∷ t) = true
bytes_lt (c ∷ s) (d ∷ t) =
    let rest = bytes_lt s t in if ltb c d then true else if c == d then rest else false

abbrev pub min_text : Bytes → Option Bytes → Bytes
min_text s none = s
min_text s (some t) = if bytes_lt t s then t else s

unfoldable pub min_currency : Uuid → List EntryRow → Option Bytes
unfolding bytes_lt
min_currency id [] = none
min_currency id (row ∷ rows) =
    let rest = min_currency id rows in
    if row.wallet_id == id then some (min_text row.currency rest) else rest

-- The end of SumByWallet: the sum is scanned into an int64 first.
abbrev pub summed : ℤ → ℕ → Option Bytes → Result (Money × ℕ)
summed total entries none = ok (record { minor = pos 0; currency = [] }, 0)
summed total entries (some code) = do
  currency ← parse_currency code
  ok (from_minor_units total currency, entries)

unfoldable pub sum_by_wallet : Uuid → Statement (Money × ℕ)
unfolding sum_entries count_entries min_currency
sum_by_wallet id db =
    let total = sum_entries id db.entries in
    (
      if in_int64 total
          then summed total (count_entries id db.entries) (min_currency id db.entries)
          else err (wrapped (external 1)),
      db,
    )
