-- ===== src/UseCase/Books/NewRow.antt =====
-- The tables after a new wallet is stored, and what closes its books.
use jungle_gaming.Prelude.{
  ◌≡◌, refl, sym, ap, ◌∙◌, Bool, true, false, List, [], ◌∷◌, All, arith, not, ◌==◌, ◌&&◌,
  Bool-cases, inl, inr,
}
use jungle_gaming.Prelude.Int.{pos, ◌+ℤ◌, int_laws}
use jungle_gaming.Prelude.Int64.{IsInt64}
use jungle_gaming.Shared.{Uuid}
use jungle_gaming.Wallet.{Wallet}
use jungle_gaming.Repository.Rows.{WalletRow, EntryRow, to_wallet_row}
use jungle_gaming.Repository.Tables.{Db, exists_row}
use jungle_gaming.Repository.Entries.{sum_entries, signed_amount}
use jungle_gaming.Repository.Wallets
use jungle_gaming.Repository.Wallets.{wallet_collides}
use jungle_gaming.UseCase.Triple.{StatementTriple}
use jungle_gaming.UseCase.Books.{
  IsBooked, IsBookedRow, IsOwned, has_id, sum-cons_self, sum-cons_other,
}

-- The tables with the row of a new wallet, of which there is no entry yet.
pub record IsNew (opened : Wallet) (ws : List WalletRow) (es : List EntryRow) : Type 0 where
  pub rest : List WalletRow
  pub added : ws ≡ to_wallet_row opened ∷ rest
  pub booked : IsBooked rest es
  pub absent : exists_row (has_id opened.id) rest ≡ false

-- Entries of stored wallets have no part in the sum of a wallet that is not stored.
sum-absent :
    (id : Uuid) (ws : List WalletRow) (es : List EntryRow)
    → exists_row (has_id id) ws ≡ false
    → All (IsOwned ws) es
    → sum_entries id es ≡ pos 0
unfolding sum_entries
sum-absent id ws [] a h = refl
sum-absent id ws (e ∷ es) a (x, h) = elim (Bool-cases (e.wallet_id == id)) [
  | inl same ↦
      let q : e.wallet_id ≡ id = ground arith in
      let there : exists_row (has_id id) ws ≡ true = rw (← q) x in cc
  | inr different ↦ sum-cons_other id e es different ∙ sum-absent id ws es a h
]

-- More rows keep the owners of the entries.
owners-cons :
    (row : WalletRow) (ws : List WalletRow) (es : List EntryRow)
    → All (IsOwned ws) es
    → All (IsOwned (row ∷ ws)) es
owners-cons row ws [] h = tt
owners-cons row ws (e ∷ es) (x, h) = (ground arith, owners-cons row ws es h)

-- An entry of a wallet that is not among the rows leaves them booked.
booked-other :
    (e : EntryRow) (es : List EntryRow) (ws : List WalletRow)
    → exists_row (has_id e.wallet_id) ws ≡ false
    → All (IsBookedRow es) ws
    → All (IsBookedRow (e ∷ es)) ws
booked-other e es [] a h = tt
booked-other e es (row ∷ ws) a ((i, s), h) =
    let different : (e.wallet_id == row.id) ≡ false = ground arith in
    ((i, s ∙ sym (sum-cons_other row.id e es different)), booked-other e es ws (ground arith) h)

-- With an opening balance of zero no entry is due.
pub new_zero-IsBooked :
    (opened : Wallet) (ws : List WalletRow) (es : List EntryRow)
    → IsInt64 opened.balance.minor
    → opened.balance.minor ≡ pos 0
    → IsNew opened ws es
    → IsBooked ws es
new_zero-IsBooked opened ws es i z n = rw n.added (record {
  balances =
      ((i, z ∙ sym (sum-absent opened.id n.rest es n.absent n.booked.owners)), n.booked.balances);
  owners = owners-cons (to_wallet_row opened) n.rest es n.booked.owners;
})

-- Else the opening entry closes the books.
pub new_entry-IsBooked :
    (opened : Wallet) (e : EntryRow) (ws : List WalletRow) (es : List EntryRow)
    → IsInt64 opened.balance.minor
    → e.wallet_id ≡ opened.id
    → signed_amount e ≡ opened.balance.minor
    → IsNew opened ws es
    → IsBooked ws (e ∷ es)
new_entry-IsBooked opened e ws es i same s n =
    let nothing = sum-absent opened.id n.rest es n.absent n.booked.owners in
    let sum =
      ap (λ (x : Uuid). sum_entries x (e ∷ es)) (sym same)
      ∙ sum-cons_self e es
      ∙ ap (λ (x : Uuid). signed_amount e +ℤ sum_entries x es) same in
    let away : exists_row (has_id e.wallet_id) n.rest ≡ false = rw same n.absent in
    rw n.added (record {
      balances = (
        (i, sym (sum ∙ rw (s, nothing) (omega int_laws))),
        booked-other e es n.rest away n.booked.balances,
      );
      owners = (ground arith, owners-cons (to_wallet_row opened) n.rest es n.booked.owners);
    })

second_not : (a b : Bool) → (a && not b) ≡ true → b ≡ false
second_not a b h = ground arith

collides-has_id :
    (row : WalletRow) (ws : List WalletRow)
    → exists_row (wallet_collides row) ws ≡ false
    → exists_row (has_id row.id) ws ≡ false
collides-has_id row [] h = h
collides-has_id row (x ∷ ws) h = ground (arith, collides-has_id row ws)

admits-absent :
    (row : WalletRow) (db : Db)
    → Wallets.admits row db ≡ true
    → exists_row (has_id row.id) db.wallets ≡ false
unfolding Wallets.admits
admits-absent row db h = collides-has_id row db.wallets (second_not _ _ h)

pub create_triple :
    (opened : Wallet) → StatementTriple IsBooked (Wallets.create opened) (λ _. IsNew opened)
unfolding Wallets.create
create_triple opened db b = elim (Bool-cases (Wallets.admits (to_wallet_row opened) db)) [
  | inl t ↦ rw t (record {
    rest = db.wallets;
    added = refl;
    booked = b;
    absent = admits-absent (to_wallet_row opened) db t;
  })
  | inr f ↦ rw f tt
]
