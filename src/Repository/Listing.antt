-- ===== src/Repository/Listing.antt =====
-- ListByWallet of repository/ledger.go, with port.LedgerCursor and port.LedgerPage.
use jungle_gaming.Prelude.{
  ℕ, zero, suc, ◌+◌, ◌-◌, Bool, true, ltb, ◌==◌, ◌&&◌, ◌||◌, if◌then◌else◌, Option, none, some,
  List, [], ◌∷◌, length,
}
use jungle_gaming.Prelude.Int.{ℤ, pos, pos_part, leb_ℤ}
use jungle_gaming.Shared.{Result, ok, err, ◌>>=◌, Uuid, Time}
use jungle_gaming.Ledger.{Entry}
use jungle_gaming.Repository.Rows.{EntryRow, scan_ledger_entry}
use jungle_gaming.Repository.Tables.{Statement, err_not_found}
use jungle_gaming.Repository.Ordered.{select_rows, limit_rows}

pub record LedgerCursor : Type 0 where
  pub created_at : Time
  pub id : Uuid

pub record LedgerPage : Type 0 where
  pub entries : List Entry
  pub next : Option LedgerCursor

abbrev pub entry_instant : EntryRow → Time
entry_instant row = row.created_at

abbrev pub entry_name : EntryRow → Uuid
entry_name row = row.id

-- $2 IS NULL OR (created_at, id) > ($2, $3)
unfoldable pub is_after : Option LedgerCursor → EntryRow → Bool
is_after none row = true
is_after (some c) row =
    ltb c.created_at row.created_at || (c.created_at == row.created_at) && ltb c.id row.id

abbrev pub is_listed : Uuid → Option LedgerCursor → EntryRow → Bool
is_listed wallet_id after row = (row.wallet_id == wallet_id) && is_after after row

-- WHERE and ORDER BY
unfoldable pub listed_rows : Uuid → Option LedgerCursor → List EntryRow → List EntryRow
listed_rows wallet_id after rows =
    select_rows entry_instant entry_name (is_listed wallet_id after) rows

unfoldable pub scan_entries : List EntryRow → Result (List Entry)
scan_entries [] = ok []
scan_entries (row ∷ rows) = do
  entry ← scan_ledger_entry row
  rest ← scan_entries rows
  ok (entry ∷ rest)

abbrev pub cursor_of : Entry → LedgerCursor
cursor_of e = record { created_at = e.created_at; id = e.id }

abbrev pub take_entries : ℕ → List Entry → List Entry
take_entries zero entries = []
take_entries (suc n) [] = []
take_entries (suc n) (e ∷ entries) = e ∷ take_entries n entries

-- entries[n]
abbrev pub cursor_at : ℕ → List Entry → Option LedgerCursor
cursor_at n [] = none
cursor_at zero (e ∷ entries) = some (cursor_of e)
cursor_at (suc n) (e ∷ entries) = cursor_at n entries

unfoldable pub page_of : ℕ → List Entry → LedgerPage
page_of limit entries =
    if ltb limit (length entries)
    then record { entries = take_entries limit entries; next = cursor_at (limit - 1) entries }
    else record { entries = entries; next = none }

unfoldable pub list_by_wallet : Uuid → Option LedgerCursor → ℤ → Statement LedgerPage
unfolding listed_rows scan_entries page_of
list_by_wallet wallet_id after limit db = if leb_ℤ limit (pos 0) then (err err_not_found, db) else (
  (scan_entries (limit_rows (pos_part limit + 1) (listed_rows wallet_id after db.entries))
      >>= λ entries. ok (page_of (pos_part limit) entries)),
  db,
)
