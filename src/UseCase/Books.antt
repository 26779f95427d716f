-- ===== src/UseCase/Books.antt =====
-- The books: the stored balance of every wallet is the sum of its ledger entries. The invariant, and
-- what a movement or an opening does to it.
pub mod Asides
pub mod Settling
pub mod Moving
pub mod Keeping
pub mod NewRow
pub mod Opening
use jungle_gaming.Prelude.{
  ◌≡◌, ◌≢◌, refl, sym, ap, ◌∙◌, arith, Bool, true, false, ◌==◌, ◌&&◌, if◌then◌else◌, Option, none,
  some, List, [], ◌∷◌, All, Bool-cases, inl, inr,
}
use jungle_gaming.Prelude.Bytes.{Bytes}
use jungle_gaming.Prelude.Int.{ℤ, pos, ◌+ℤ◌, int_laws}
use jungle_gaming.Prelude.Int64.{IsInt64}
use jungle_gaming.Shared.{Uuid}
use jungle_gaming.Wallet.{Wallet}
use jungle_gaming.Repository.Rows.{WalletRow, EntryRow}
use jungle_gaming.Repository.Tables.{find_row, exists_row, update_rows}
use jungle_gaming.Repository.Wallets.{write_balance}
use jungle_gaming.Repository.Entries.{sum_entries, signed_amount, has_wallet}

abbrev pub has_id : Uuid → WalletRow → Bool
has_id id row = row.id == id

-- The balance of a row fits its column and is what the ledger says.
abbrev pub IsBookedRow : List EntryRow → WalletRow → Type 0
IsBookedRow es row = IsInt64 row.balance_minor × (row.balance_minor ≡ sum_entries row.id es)

-- Every entry belongs to a wallet that exists.
abbrev pub IsOwned : List WalletRow → EntryRow → Type 0
IsOwned ws e = exists_row (has_id e.wallet_id) ws ≡ true

pub record IsBooked (ws : List WalletRow) (es : List EntryRow) : Type 0 where
  pub balances : All (IsBookedRow es) ws
  pub owners : All (IsOwned ws) es

-- The books but for one wallet, whose balance is due to become the given number.
abbrev pub IsDueRow : Uuid → List EntryRow → WalletRow → Type 0
IsDueRow id es row =
    IsInt64 row.balance_minor × ((row.id == id) ≡ false → row.balance_minor ≡ sum_entries row.id es)

pub record IsDue (id : Uuid) (due : ℤ) (ws : List WalletRow) (es : List EntryRow) : Type 0 where
  pub others : All (IsDueRow id es) ws
  pub owners : All (IsOwned ws) es
  pub due_sum : due ≡ sum_entries id es
  pub due_int64 : IsInt64 due

sum-cons_other :
    (id : Uuid) (e : EntryRow) (es : List EntryRow)
    → (e.wallet_id == id) ≡ false
    → sum_entries id (e ∷ es) ≡ sum_entries id es
unfolding sum_entries
sum-cons_other id e es h = rw h

sum-cons_self :
    (e : EntryRow) (es : List EntryRow)
    → sum_entries e.wallet_id (e ∷ es) ≡ signed_amount e +ℤ sum_entries e.wallet_id es
unfolding sum_entries
sum-cons_self e es = ground arith

flip_false : (a b : Uuid) → (a == b) ≡ false → (b == a) ≡ false
flip_false a b h = ground arith

rows_due :
    (e : EntryRow) (es : List EntryRow) (ws : List WalletRow)
    → All (IsBookedRow es) ws
    → All (IsDueRow e.wallet_id (e ∷ es)) ws
rows_due e es [] h = tt
rows_due e es (row ∷ ws) ((fits, sum), h) = (
  (fits, λ other. sum ∙ sym (sum-cons_other row.id e es (flip_false row.id e.wallet_id other))),
  rows_due e es ws h,
)

-- An entry that is appended for an existing wallet makes the sum of that wallet due.
pub append-IsDue :
    (e : EntryRow) (ws : List WalletRow) (es : List EntryRow) (due : ℤ)
    → IsBooked ws es
    → exists_row (has_id e.wallet_id) ws ≡ true
    → due ≡ signed_amount e +ℤ sum_entries e.wallet_id es
    → IsInt64 due
    → IsDue e.wallet_id due ws (e ∷ es)
append-IsDue e ws es due b x s i = record {
  others = rows_due e es ws b.balances;
  owners = (x, b.owners);
  due_sum = s ∙ sym (sum-cons_self e es);
  due_int64 = i;
}

-- Writing the balance of a wallet leaves the identifiers of the rows.
exists-update :
    (id : Uuid) (target : Wallet) (ws : List WalletRow)
    → exists_row (has_id id) (update_rows (has_id target.id) (write_balance target) ws)
      ≡ exists_row (has_id id) ws
exists-update id target [] = refl
exists-update id target (row ∷ ws) = ground (arith, exists-update id target ws)

owners-update :
    (target : Wallet) (ws : List WalletRow) (es : List EntryRow)
    → All (IsOwned ws) es
    → All (IsOwned (update_rows (has_id target.id) (write_balance target) ws)) es
owners-update target ws [] h = tt
owners-update target ws (e ∷ es) (x, h) =
    (exists-update e.wallet_id target ws ∙ x, owners-update target ws es h)

booked_row :
    (target : Wallet) (es : List EntryRow) (row : WalletRow)
    → target.balance.minor ≡ sum_entries target.id es
    → IsInt64 target.balance.minor
    → IsDueRow target.id es row
    → IsBookedRow es (if has_id target.id row then write_balance target row else row)
booked_row target es row s i (fits, other) = elim (Bool-cases (has_id target.id row)) [
  | inl same ↦
      let e : target.id ≡ row.id = ground arith in
      rw same (i, s ∙ ap (λ (id : Uuid). sum_entries id es) e)
  | inr different ↦ rw different (fits, other different)
]

rows_booked :
    (target : Wallet) (es : List EntryRow) (ws : List WalletRow)
    → target.balance.minor ≡ sum_entries target.id es
    → IsInt64 target.balance.minor
    → All (IsDueRow target.id es) ws
    → All (IsBookedRow es) (update_rows (has_id target.id) (write_balance target) ws)
rows_booked target es [] s i h = tt
rows_booked target es (row ∷ ws) s i (d, h) =
    (booked_row target es row s i d, rows_booked target es ws s i h)

-- Writing the balance that is due closes the books again.
pub update-IsBooked :
    (target : Wallet) (ws : List WalletRow) (es : List EntryRow)
    → IsDue target.id target.balance.minor ws es
    → IsBooked (update_rows (has_id target.id) (write_balance target) ws) es
update-IsBooked target ws es d = record {
  balances = rows_booked target es ws d.due_sum d.due_int64 d.others;
  owners = owners-update target ws es d.owners;
}

-- The row that a query finds is booked, and has the identifier that was asked for.
pub find-IsBooked :
    (id : Uuid) (es : List EntryRow) (ws : List WalletRow) (row : WalletRow)
    → All (IsBookedRow es) ws
    → find_row (has_id id) ws ≡ some row
    → IsBookedRow es row × (row.id ≡ id)
find-IsBooked id es [] row h e = cc
find-IsBooked id es (x ∷ ws) row (b, h) e = elim (Bool-cases (has_id id x)) [
  | inl same ↦ let found : x ≡ row = ground arith in rw (← found) (b, ground arith)
  | inr different ↦ find-IsBooked id es ws row h (ground arith)
]
