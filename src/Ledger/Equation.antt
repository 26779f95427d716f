-- ===== src/Ledger/Equation.antt =====
-- The balance equation of an entry, and the entries that a movement of a wallet gives.
use jungle_gaming.Prelude.{◌≡◌, ◌≢◌, refl, sym, ◌∙◌, arith, false}
use jungle_gaming.Prelude.Bytes.{is_empty, bytes_eq_refl, eq_of_bytes_eq}
use jungle_gaming.Prelude.Int.{ℤ, pos, ◌+ℤ◌, ◌-ℤ◌, ◌≤ℤ◌, ◌<ℤ◌, int_laws, eq_of_parts, eqb_ℤ-refl}
use jungle_gaming.Prelude.Int64.{IsInt64}
use jungle_gaming.Shared.{ok, Time, Uuid}
use jungle_gaming.Money.{Money, equal}
use jungle_gaming.Money.Sums.{add_money_lem, sub_money_lem}
use jungle_gaming.Wallet.{Wallet, Movement}
use jungle_gaming.Wallet.Movements.{IsValid, IsReported}
use jungle_gaming.Ledger.{
  Direction, debit, credit, Entry, new_entry, require_balance_equation, expected_balance,
}

-- What an entry adds to the balance.
abbrev pub delta : Direction → ℤ → ℤ
delta credit amount = amount
delta debit amount = pos 0 -ℤ amount

-- A change of a balance in one direction by an amount.
abbrev pub changed : Direction → ℤ → ℤ → ℤ
changed credit before amount = before +ℤ amount
changed debit before amount = before -ℤ amount

pub changed-delta :
    (d : Direction) (before amount : ℤ) → changed d before amount ≡ before +ℤ delta d amount
changed-delta credit before amount = refl
changed-delta debit before amount = omega int_laws

-- An entry closes the balance equation exactly, in one currency, moves a positive amount and leaves no
-- negative balance.
pub record IsBalanced (e : Entry) : Type 0 where
  pub equation : e.balance_after.minor ≡ changed e.direction e.balance_before.minor e.amount.minor
  pub amount_positive : pos 0 <ℤ e.amount.minor
  pub after_nonneg : pos 0 ≤ℤ e.balance_after.minor
  pub before_currency : e.balance_before.currency ≡ e.amount.currency
  pub after_currency : e.balance_after.currency ≡ e.amount.currency

module _ (id wallet_id transaction_id : Uuid) (amount before after : Money) (now : Time)
    (ha : IsInt64 amount.minor) (hb : IsInt64 before.minor) where
  new_entry-credit :
      (e : Entry)
      → new_entry id wallet_id transaction_id credit amount before after now ≡ ok e
      → IsBalanced e
  unfolding new_entry equal
  new_entry-credit e h = ground (
    arith,
    add_money_lem before amount hb ha,
    eq_of_bytes_eq before.currency amount.currency,
    eq_of_bytes_eq before.currency after.currency,
    eq_of_parts (before.minor +ℤ amount.minor) after.minor,
  )

  new_entry-debit :
      (e : Entry)
      → new_entry id wallet_id transaction_id debit amount before after now ≡ ok e
      → IsBalanced e
  unfolding new_entry equal
  new_entry-debit e h = ground (
    arith,
    sub_money_lem before amount hb ha,
    eq_of_bytes_eq before.currency amount.currency,
    eq_of_bytes_eq before.currency after.currency,
    eq_of_parts (before.minor -ℤ amount.minor) after.minor,
  )

  -- Every entry that NewEntry returns is balanced, where the amount and the balance before it are int64.
  pub new_entry-IsBalanced :
      (d : Direction) (e : Entry)
      → new_entry id wallet_id transaction_id d amount before after now ≡ ok e
      → IsBalanced e
  new_entry-IsBalanced credit e h = new_entry-credit e h
  new_entry-IsBalanced debit e h = new_entry-debit e h

-- The converse for one currency and valid amounts: the entry is accepted as given.
record IsAdmissible (d : Direction) (amount before after : Money) : Type 0 where
  amount_int64 : IsInt64 amount.minor
  before_int64 : IsInt64 before.minor
  after_int64 : IsInt64 after.minor
  equation : after.minor ≡ changed d before.minor amount.minor
  amount_positive : pos 0 <ℤ amount.minor
  after_nonneg : pos 0 ≤ℤ after.minor
  currency_set : is_empty amount.currency ≡ false
  before_currency : before.currency ≡ amount.currency
  after_currency : after.currency ≡ amount.currency

expected_balance_lem :
    (d : Direction) (amount before after : Money)
    → IsAdmissible d amount before after
    → expected_balance d before amount ≡ ok after
expected_balance_lem credit amount before after a = ground (
  arith,
  add_money_lem before amount a.before_int64 a.amount_int64,
  bytes_eq_refl amount.currency,
  a.equation,
)
expected_balance_lem debit amount before after a = ground (
  arith,
  sub_money_lem before amount a.before_int64 a.amount_int64,
  bytes_eq_refl amount.currency,
  a.equation,
)

require_balance_equation_lem :
    (d : Direction) (amount before after : Money)
    → IsAdmissible d amount before after
    → require_balance_equation d amount before after ≡ ok tt
unfolding require_balance_equation equal
require_balance_equation_lem d amount before after a =
    rw (expected_balance_lem d amount before after a)
      (ground (arith, eqb_ℤ-refl after.minor, bytes_eq_refl after.currency))

new_entry_lem :
    (d : Direction) (id wallet_id transaction_id : Uuid) (amount before after : Money) (now : Time)
    → id ≢ 0
    → wallet_id ≢ 0
    → transaction_id ≢ 0
    → now ≢ 0
    → IsAdmissible d amount before after
    → new_entry id wallet_id transaction_id d amount before after now
      ≡ ok (record {
        id = id;
        wallet_id = wallet_id;
        transaction_id = transaction_id;
        direction = d;
        amount = amount;
        balance_before = before;
        balance_after = after;
        created_at = now;
      })
unfolding new_entry
new_entry_lem d id wallet_id transaction_id amount before after now i w t n a =
    ground (arith, require_balance_equation_lem d amount before after a)

-- The entry of a movement is accepted: with an identifier, a transaction and an instant that are set,
-- NewEntry returns the entry with the three amounts of a movement that a valid wallet has reported, if
-- the amount is an int64, the new wallet is valid and its balance is changed as the direction says.
pub new_entry-IsReported :
    (d : Direction)
    → (id transaction_id : Uuid) (now : Time) → (w w' : Wallet) (amount : Money) (m : Movement)
    → id ≢ 0
    → transaction_id ≢ 0
    → now ≢ 0
    → IsValid w
    → IsValid w'
    → IsInt64 amount.minor
    → IsReported w amount w' m
    → w'.balance.minor ≡ changed d w.balance.minor amount.minor
    → new_entry id w'.id transaction_id d m.amount m.balance_before m.balance_after now
      ≡ ok (record {
        id = id;
        wallet_id = w'.id;
        transaction_id = transaction_id;
        direction = d;
        amount = amount;
        balance_before = w.balance;
        balance_after = w'.balance;
        created_at = now;
      })
new_entry-IsReported d id transaction_id now w w' amount m i t n v v' h r s =
    rw (r.amount_reported, r.before_reported, r.after_reported)
      (new_entry_lem d id w'.id transaction_id amount w.balance w'.balance now i v'.id_set t n
        (record {
          amount_int64 = h;
          before_int64 = v.balance_int64;
          after_int64 = v'.balance_int64;
          equation = s;
          amount_positive = r.positive;
          after_nonneg = v'.balance_nonneg;
          currency_set = rw r.currency_checked v.currency_set;
          before_currency = v.one_currency ∙ sym r.currency_checked;
          after_currency = v'.one_currency ∙ r.same_currency ∙ sym r.currency_checked;
        }))
