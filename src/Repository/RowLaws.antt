-- ===== src/Repository/RowLaws.antt =====
-- The rows of the tables against the aggregates that they store.
use jungle_gaming.Prelude.{◌≡◌, sym, ap, arith}
use jungle_gaming.Prelude.Int64.{IsInt64}
use jungle_gaming.Shared.{ok, Uuid, >>=-eq-ok}
use jungle_gaming.Money.{Currency, parse_currency, from_minor_units}
use jungle_gaming.Money.Text.Contract.{IsCurrency, parse_currency_lem, parse_currency_sound}
use jungle_gaming.Wallet.{Wallet, State, rehydrate}
use jungle_gaming.Wallet.Movements.{IsValid}
use jungle_gaming.Wallet.Lifecycle.{state_of, rehydrate-state_of, rehydrate-IsValid}
use jungle_gaming.Repository.Rows.{WalletRow, scan_id, to_wallet_row, rehydrate_wallet}

scan_id_sound : (x y : Uuid) → scan_id x ≡ ok y → y ≡ x
unfolding scan_id
scan_id_sound x y h = ground arith

abbrev state_with : WalletRow → Uuid → Uuid → Currency → State
state_with row id player currency = record {
  id = id;
  player_id = player;
  balance = from_minor_units row.balance_minor currency;
  version = row.version;
  created_at = row.created_at;
  updated_at = row.updated_at;
}

row_of_state :
    (row : WalletRow) (w : Wallet) (id player : Uuid) (currency : Currency)
    → IsValid w
    → state_of w ≡ state_with row id player currency
    → id ≡ row.id
    → player ≡ row.player_id
    → currency ≡ row.currency
    → to_wallet_row w ≡ row
row_of_state row w id player currency v s i p c = grind (arith, v.one_currency)

finished :
    (row : WalletRow) (w : Wallet) (id player : Uuid) (currency : Currency)
    → IsInt64 row.balance_minor
    → id ≡ row.id
    → player ≡ row.player_id
    → currency ≡ row.currency
    → IsCurrency row.currency
    → rehydrate (state_with row id player currency) ≡ ok w
    → IsValid w × (to_wallet_row w ≡ row) × IsCurrency w.currency
finished row w id player currency h i p c k e =
    let (v, s) = rehydrate-IsValid _ w h e in
    let r = row_of_state row w id player currency v s i p c in
    (v, r, rw (sym (ap (λ (x : WalletRow). x.currency) r)) at k)

-- The scan of a row whose balance is an int64 gives, where it succeeds, a valid wallet that holds what
-- the row says, in a currency of three upper-case letters.
pub rehydrate_wallet_sound :
    (row : WalletRow) (w : Wallet)
    → IsInt64 row.balance_minor
    → rehydrate_wallet row ≡ ok w
    → IsValid w × (to_wallet_row w ≡ row) × IsCurrency w.currency
unfolding rehydrate_wallet
rehydrate_wallet_sound row w h e =
    let (id, hi, e') = >>=-eq-ok (scan_id row.id) _ e in
    let (player, hp, e'') = >>=-eq-ok (scan_id row.player_id) _ e' in
    let (currency, hc, e3) = >>=-eq-ok (parse_currency row.currency) _ e'' in
    let (same, valid) = parse_currency_sound row.currency currency hc in
    finished row w id player currency h (scan_id_sound row.id id hi)
      (scan_id_sound row.player_id player hp) same valid e3

-- A valid wallet in such a currency is scanned back from the row that it is stored as.
pub rehydrate_wallet-to_wallet_row :
    (w : Wallet) → IsValid w → IsCurrency w.currency → rehydrate_wallet (to_wallet_row w) ≡ ok w
unfolding rehydrate_wallet scan_id
rehydrate_wallet-to_wallet_row w v c =
    rw (parse_currency_lem w.currency c)
      (ground (arith, rehydrate-state_of w v, v.one_currency, v.id_set, v.player_set))
