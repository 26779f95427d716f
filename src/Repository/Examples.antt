-- ===== src/Repository/Examples.antt =====
-- The laws of the rows at a concrete wallet.
use jungle_gaming.Prelude.{◌≡◌, refl, arith, ◌+◌, some, none, [], ◌∷◌}
use jungle_gaming.Prelude.Bytes.{codes, bytes_eq}
use jungle_gaming.Prelude.Int.{ℤ, pos}
use jungle_gaming.Prelude.Int64.{add64}
use jungle_gaming.Shared.{ok, Uuid, Time}
use jungle_gaming.Money.{all_upper, parse_currency, add_money, sub_money}
use jungle_gaming.Money.Text.Contract.{IsCurrency}
use jungle_gaming.Wallet.{Wallet}
use jungle_gaming.Wallet.Movements.{IsValid}
use jungle_gaming.Repository.Rows.{EntryRow, scan_ledger_entry, scan_id}
use jungle_gaming.Ledger.{Entry, credit, new_entry, parse_direction}
use jungle_gaming.Repository.Tables.{Db}
use jungle_gaming.Repository.Ordered.{select_rows, insert_row, comes_first, limit_rows}
use jungle_gaming.Repository.Listing.{
  LedgerPage, list_by_wallet, listed_rows, scan_entries, page_of, is_after,
}
use jungle_gaming.Repository.Paging.{drop_rows}
use jungle_gaming.Repository.Pages.{list_by_wallet_goes_on}

abbrev purse : Wallet
purse = record {
  id = 1;
  player_id = 2;
  currency = codes "BRL";
  balance = record { minor = pos 10000; currency = codes "BRL" };
  version = pos 1;
  created_at = 5;
  updated_at = 5;
}

purse-IsValid : IsValid purse
purse-IsValid = ground arith

brl-IsCurrency : IsCurrency (codes "BRL")
unfolding all_upper
brl-IsCurrency = (refl, refl)

-- Three entries of the wallet at two instants, the newest first in the table.
abbrev deposit : Uuid → Time → ℤ → ℤ → EntryRow
deposit id at before after = record {
  id = id;
  wallet_id = 1;
  transaction_id = id + 100;
  direction = codes "CREDIT";
  amount_minor = pos 100;
  currency = codes "BRL";
  balance_before_minor = before;
  balance_after_minor = after;
  created_at = at;
}

abbrev statement_db : Db
statement_db = record {
  wallets = [];
  transactions = [];
  entries =
      deposit 12 8 (pos 200) (pos 300)
      ∷ deposit 11 7 (pos 100) (pos 200)
      ∷ deposit 10 7 (pos 0) (pos 100)
      ∷ [];
  inbox = [];
  outbox = [];
}

abbrev first_entry : Entry
first_entry = record {
  id = 10;
  wallet_id = 1;
  transaction_id = 110;
  direction = credit;
  amount = record { minor = pos 100; currency = codes "BRL" };
  balance_before = record { minor = pos 0; currency = codes "BRL" };
  balance_after = record { minor = pos 100; currency = codes "BRL" };
  created_at = 7;
}

abbrev first_page : LedgerPage
first_page = record { entries = first_entry ∷ []; next = some (record { created_at = 7; id = 10 }) }

first_page_test : (list_by_wallet 1 none (pos 1) statement_db).0 ≡ ok first_page
unfolding list_by_wallet listed_rows scan_entries page_of select_rows insert_row comes_first
    is_after scan_ledger_entry scan_id new_entry parse_direction parse_currency bytes_eq add64
    add_money sub_money jungle_gaming.Money.add jungle_gaming.Prelude.Int64.sub64
    jungle_gaming.Money.equal
first_page_test = refl

list_by_wallet_goes_on_example :
    (scan_entries (limit_rows 1 (listed_rows 1 none statement_db.entries)) ≡ ok first_page.entries)
    × (listed_rows 1 (some (record { created_at = 7; id = 10 })) statement_db.entries
        ≡ drop_rows 1 (listed_rows 1 none statement_db.entries))
list_by_wallet_goes_on_example =
    list_by_wallet_goes_on 1 none 0 statement_db first_page (record { created_at = 7; id = 10 })
      ((refl, (refl, tt)), ((refl, tt), (tt, tt))) first_page_test refl
