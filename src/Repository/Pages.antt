-- ===== src/Repository/Pages.antt =====
-- The pages of ListByWallet of repository/ledger.go.
use jungle_gaming.Prelude.{
  ℕ, zero, suc, ◌+◌, ◌-◌, ◌≡◌, refl, sym, ap, ◌∙◌, arith, Bool, true, false, ltb, ◌==◌, ◌&&◌,
  Bool-cases, inl, inr, Option, none, some, List, [], ◌∷◌, All, length,
}
use jungle_gaming.Prelude.Int.{ℤ, pos, pos_part, leb_ℤ}
use jungle_gaming.Shared.{ok, ◌>>=◌, >>=-eq-ok, Uuid, Time}
use jungle_gaming.Money.{Money, parse_currency}
use jungle_gaming.Ledger.{Direction, Entry, parse_direction, new_entry}
use jungle_gaming.Repository.Rows.{EntryRow, scan_id, scan_ledger_entry}
use jungle_gaming.Repository.Tables.{Db}
use jungle_gaming.Repository.Ordered.{select_rows, limit_rows}
use jungle_gaming.Repository.Selection.{select-All, select-IsOrdered}
use jungle_gaming.Repository.Listing.{
  LedgerCursor, LedgerPage, entry_instant, entry_name, is_after, is_listed, listed_rows,
  scan_entries, cursor_of, cursor_at, take_entries, page_of, list_by_wallet,
}
use jungle_gaming.Repository.Paging.{
  row_at, drop_rows, goes_after, HasDistinctNames, member_at, select-HasDistinctNames, filter-drop,
  filter-select, select-same,
}

abbrev pub key_of : EntryRow → LedgerCursor
key_of row = record { created_at = row.created_at; id = row.id }

stronger : (w a g : Bool) → (g ≡ true → a ≡ true) → (w && g) ≡ ((w && a) && g)
stronger w a false h = ground arith
stronger w a true h = let t = h refl in ground arith

after_next :
    (after : Option LedgerCursor) (x row : EntryRow)
    → is_after after x ≡ true
    → goes_after entry_instant entry_name x row ≡ true
    → is_after after row ≡ true
unfolding is_after
after_next none x row h g = refl
after_next (some c) x row h g = ground arith

key_after :
    (x row : EntryRow) → is_after (some (key_of x)) row ≡ goes_after entry_instant entry_name x row
unfolding is_after
key_after x row = refl

module _ (wallet : Uuid) (after : Option LedgerCursor) where
  narrowed :
      (x row : EntryRow)
      → is_after after x ≡ true
      → is_listed wallet (some (key_of x)) row
        ≡ (is_listed wallet after row && goes_after entry_instant entry_name x row)
  narrowed x row h =
      let w = row.wallet_id == wallet in
      ap (λ (b : Bool). w && b) (key_after x row)
      ∙ stronger w (is_after after row) (goes_after entry_instant entry_name x row)
          (after_next after x row h)

  listed_fits :
      (rows : List EntryRow)
      → All (λ row. is_listed wallet after row ≡ true → is_after after row ≡ true) rows
  listed_fits [] = tt
  listed_fits (row ∷ rows) = (λ h. ground arith, listed_fits rows)

  continued :
      (n : ℕ) (x : EntryRow) (rows : List EntryRow)
      → HasDistinctNames entry_instant entry_name rows
      → row_at n (listed_rows wallet after rows) ≡ some x
      → listed_rows wallet (some (key_of x)) rows
        ≡ drop_rows (suc n) (listed_rows wallet after rows)
  unfolding listed_rows
  continued n x rows d e =
      let test = is_listed wallet after in
      let found =
        member_at entry_instant entry_name (λ row. is_after after row ≡ true) n x
          (select_rows entry_instant entry_name test rows)
          (select-All entry_instant entry_name test (λ row. is_after after row ≡ true) rows
            (listed_fits rows))
          e in
      select-same entry_instant entry_name (is_listed wallet (some (key_of x)))
        (λ row. test row && goes_after entry_instant entry_name x row) rows
        (λ row. narrowed x row found)
      ∙ sym
          (filter-select entry_instant entry_name test (goes_after entry_instant entry_name x) rows)
      ∙ filter-drop entry_instant entry_name n x (select_rows entry_instant entry_name test rows)
          (select-IsOrdered entry_instant entry_name test rows)
          (select-HasDistinctNames entry_instant entry_name test rows d) e

made_of :
    (id wallet transaction : Uuid) (d : Direction) (amount before after : Money) (at : Time)
    (e : Entry)
    → new_entry id wallet transaction d amount before after at ≡ ok e
    → (e.id ≡ id) × (e.created_at ≡ at)
unfolding new_entry
made_of id wallet transaction d amount before after at e h = ground arith

same_id : (x y : Uuid) → scan_id x ≡ ok y → y ≡ x
unfolding scan_id
same_id x y h = ground arith

-- The cursor of an entry is the key of its row.
scanned_key : (row : EntryRow) (e : Entry) → scan_ledger_entry row ≡ ok e → cursor_of e ≡ key_of row
unfolding scan_ledger_entry
scanned_key row e h =
    let (id, hi, h1) = >>=-eq-ok (scan_id row.id) _ h in
    let (wallet, _, h2) = >>=-eq-ok (scan_id row.wallet_id) _ h1 in
    let (transaction, _, h3) = >>=-eq-ok (scan_id row.transaction_id) _ h2 in
    let (d, _, h4) = >>=-eq-ok (parse_direction row.direction) _ h3 in
    let (currency, _, h5) = >>=-eq-ok (parse_currency row.currency) _ h4 in
    let (i, at) = made_of id wallet transaction d _ _ _ row.created_at e h5 in
    rw (i, at, same_id row.id id hi) refl

-- The entry at a place is read from the row at that place.
scanned_at :
    (n m : ℕ) (rows : List EntryRow) (entries : List Entry) (c : LedgerCursor)
    → scan_entries (limit_rows m rows) ≡ ok entries
    → cursor_at n entries ≡ some c
    → (x : EntryRow) × (row_at n rows ≡ some x) × (c ≡ key_of x)
unfolding scan_entries
scanned_at n zero rows [] c h k = cc
scanned_at n zero rows (e ∷ es) c h k = cc
scanned_at n (suc m) [] [] c h k = cc
scanned_at n (suc m) [] (e ∷ es) c h k = cc
scanned_at n (suc m) (row ∷ rows) [] c h k = cc
scanned_at zero (suc m) (row ∷ rows) (e ∷ es) c h k =
    let (e', h1, h2) = >>=-eq-ok (scan_ledger_entry row) _ h in
    let (rest, h3, h4) = >>=-eq-ok (scan_entries (limit_rows m rows)) _ h2 in
    let same : e' ≡ e = ground arith in
    let key : cursor_of e ≡ c = ground arith in
    (row, refl, sym key ∙ ap (λ (y : Entry). cursor_of y) (sym same) ∙ scanned_key row e' h1)
scanned_at (suc n) (suc m) (row ∷ rows) (e ∷ es) c h k =
    let (e', h1, h2) = >>=-eq-ok (scan_ledger_entry row) _ h in
    let (rest, h3, h4) = >>=-eq-ok (scan_entries (limit_rows m rows)) _ h2 in
    let same : rest ≡ es = ground arith in
    scanned_at n m rows es c (h3 ∙ ap (λ (y : List Entry). ok y) same) k

-- The first entries are read from the first rows.
scanned_take :
    (n : ℕ) (rows : List EntryRow) (entries : List Entry)
    → scan_entries (limit_rows (suc n) rows) ≡ ok entries
    → scan_entries (limit_rows n rows) ≡ ok (take_entries n entries)
unfolding scan_entries
scanned_take zero rows entries h = refl
scanned_take (suc n) [] entries h = let e : entries ≡ [] = ground arith in rw e refl
scanned_take (suc n) (row ∷ rows) entries h =
    let (e, h1, h2) = >>=-eq-ok (scan_ledger_entry row) _ h in
    let (rest, h3, h4) = >>=-eq-ok (scan_entries (limit_rows (suc n) rows)) _ h2 in
    let made : (e ∷ rest) ≡ entries = ground arith in
    rw (h1, scanned_take n rows rest h3)
      (ap (λ (es : List Entry). ok (take_entries (suc n) es)) made)

paged :
    (limit : ℕ) (entries : List Entry) (c : LedgerCursor)
    → (page_of limit entries).next ≡ some c
    → (cursor_at (limit - 1) entries ≡ some c)
      × ((page_of limit entries).entries ≡ take_entries limit entries)
unfolding page_of
paged limit entries c h = elim (Bool-cases (ltb limit (length entries))) [
  | inl t ↦ (rw t at h, rw t refl)
  | inr f ↦ let x = rw f at h in cc
]

listed_pages :
    (wallet : Uuid) (after : Option LedgerCursor) (limit : ℤ) (db : Db) (page : LedgerPage)
    → leb_ℤ limit (pos 0) ≡ false
    → (list_by_wallet wallet after limit db).0 ≡ ok page
    → (scan_entries (limit_rows (pos_part limit + 1) (listed_rows wallet after db.entries))
        >>= λ entries. ok (page_of (pos_part limit) entries))
      ≡ ok page
unfolding list_by_wallet
listed_pages wallet after limit db page f h = rw f at h

-- A page of the ledger that has a next one goes on exactly where it ends: with entries of different
-- identifiers, its entries are those of the first rows that the query finds, as many as the limit, and the
-- rows that the query finds from its cursor on are the other ones; so no entry is repeated on the next
-- page or skipped.
pub list_by_wallet_goes_on :
    (wallet : Uuid) (after : Option LedgerCursor) (limit : ℕ) (db : Db) (page : LedgerPage)
    (c : LedgerCursor)
    → HasDistinctNames entry_instant entry_name db.entries
    → (list_by_wallet wallet after (pos (suc limit)) db).0 ≡ ok page
    → page.next ≡ some c
    → (scan_entries (limit_rows (suc limit) (listed_rows wallet after db.entries))
        ≡ ok page.entries)
      × (listed_rows wallet (some c) db.entries
          ≡ drop_rows (suc limit) (listed_rows wallet after db.entries))
list_by_wallet_goes_on wallet after limit db page c d h next =
    let (entries, scanned, same) =
      >>=-eq-ok (scan_entries (limit_rows (suc limit + 1) (listed_rows wallet after db.entries)))
        (λ es. ok (page_of (suc limit) es))
        (listed_pages wallet after (pos (suc limit)) db page (ground arith) h) in
    let made : page_of (suc limit) entries ≡ page = ground arith in
    let (place, shown) =
      paged (suc limit) entries c (ap (λ (p : LedgerPage). p.next) made ∙ next) in
    let plus : suc limit + 1 ≡ suc (suc limit) = omega arith in
    let one_less : suc limit - 1 ≡ limit = omega arith in
    let (x, found, key) =
      scanned_at limit (suc limit + 1) (listed_rows wallet after db.entries) entries c scanned
        (rw one_less at place) in
    (
      scanned_take (suc limit) (listed_rows wallet after db.entries) entries (rw plus at scanned)
          ∙ ap (λ (es : List Entry). ok es) (sym shown ∙ ap (λ (p : LedgerPage). p.entries) made),
      rw key (continued wallet after limit x db.entries d found),
    )
