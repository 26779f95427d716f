-- ===== src/UseCase/Books/Settling.antt =====
-- The books under appendEntry of usecase/ledger_entry.go and UpdateBalance of repository/wallet.go.
use jungle_gaming.Prelude.{◌≡◌, refl, arith, Bool, true, ◌&&◌, List, [], ◌∷◌, Bool-cases, inl, inr}
use jungle_gaming.Prelude.Bytes.{Bytes, bytes_eq}
use jungle_gaming.Prelude.Int.{ℤ, ◌+ℤ◌, +ℤ_parts, -ℤ_parts}
use jungle_gaming.Prelude.Int64.{IsInt64}
use jungle_gaming.Shared.{ok, Uuid, Time}
use jungle_gaming.Money.{Money}
use jungle_gaming.Wallet
use jungle_gaming.Wallet.{Wallet, Movement}
use jungle_gaming.Wallet.Movements.{
  IsValid, IsReported, credit_lem, debit_lem, credit-IsReported, debit-IsReported,
}
use jungle_gaming.Ledger.{Direction, debit, credit, Entry, new_entry}
use jungle_gaming.Ledger.Equation.{delta, changed}
use jungle_gaming.Repository.Rows.{WalletRow, EntryRow, to_entry_row}
use jungle_gaming.Repository.Tables.{Db, exists_row}
use jungle_gaming.Repository.Entries
use jungle_gaming.Repository.Entries.{sum_entries, signed_amount, has_wallet, admits, entry_checks}
use jungle_gaming.Repository.Wallets
use jungle_gaming.Repository.Wallets.{balance_checks}
use jungle_gaming.UseCase.Monad.{Env, statement}
use jungle_gaming.UseCase.Outbox.{append_entry}
use jungle_gaming.UseCase.Process.Settle.{moved_by}
use jungle_gaming.UseCase.Triple.{
  Claim, Triple, StatementTriple, Triple-bind, Triple-lift, Triple-statement, Leaves-new_id, on_any,
  Triple-given,
}
use jungle_gaming.UseCase.Books.{IsBooked, IsDue, has_id, append-IsDue, update-IsBooked}

-- The books are closed, and the wallet holds what they say and the change on top.
abbrev pub CanMove : Uuid → ℤ → ℤ → Claim
CanMove id due change ws es = IsBooked ws es × (due ≡ change +ℤ sum_entries id es)

pub signed_amount_lem :
    (d : Direction) (e : Entry)
    → e.direction ≡ d
    → signed_amount (to_entry_row e) ≡ delta d e.amount.minor
unfolding bytes_eq
signed_amount_lem debit e h = rw h refl
signed_amount_lem credit e h = rw h refl

has_wallet-has_id :
    (id : Uuid) (c : Bytes) (ws : List WalletRow)
    → exists_row (has_wallet id c) ws ≡ true
    → exists_row (has_id id) ws ≡ true
has_wallet-has_id id c [] h = h
has_wallet-has_id id c (row ∷ ws) h = ground (arith, has_wallet-has_id id c ws)

third_of_four : (a b c d : Bool) → (a && b && c && d) ≡ true → c ≡ true
third_of_four a b c d h = ground arith

pub admits-has_id :
    (row : EntryRow) (db : Db)
    → admits row db ≡ true
    → exists_row (has_id row.wallet_id) db.wallets ≡ true
unfolding admits
admits-has_id row db h =
    has_wallet-has_id row.wallet_id row.currency db.wallets
      (third_of_four (entry_checks row) _ _ _ h)

pub append_triple :
    (e : Entry) (due : ℤ)
    → IsInt64 due
    → StatementTriple
        (CanMove e.wallet_id due (delta e.direction e.amount.minor))
        (Entries.append e)
        (λ _. IsDue e.wallet_id due)
unfolding Entries.append
append_triple e due i db (b, s) = elim (Bool-cases (admits (to_entry_row e) db)) [
  | inl t ↦ rw t (
      append-IsDue (to_entry_row e) db.wallets db.entries due b
        (admits-has_id (to_entry_row e) db t) (rw (signed_amount_lem e.direction e refl) s) i)
  | inr f ↦ rw f tt
]

pub update_triple :
    (target : Wallet)
    → StatementTriple
        (IsDue target.id target.balance.minor)
        (Wallets.update_balance target)
        (λ _. IsBooked)
unfolding Wallets.update_balance
update_triple target db d = elim (Bool-cases (balance_checks target)) [
  | inl t ↦ rw t (on_any IsBooked _ _ (update-IsBooked target db.wallets db.entries d))
  | inr f ↦ rw f tt
]

module _ (w : Wallet) (amount : Money) (now : Time) (v : IsValid w) (h : IsInt64 amount.minor)
    (w' : Wallet) (m : Movement) where
  credit-IsInt64 : Wallet.credit w amount now ≡ ok (w', m) → IsInt64 w'.balance.minor
  credit-IsInt64 e =
      ground (arith, credit_lem w amount now v h, +ℤ_parts w.balance.minor amount.minor)

  debit-IsInt64 : Wallet.debit w amount now ≡ ok (w', m) → IsInt64 w'.balance.minor
  debit-IsInt64 e =
      ground (arith, debit_lem w amount now v h, -ℤ_parts w.balance.minor amount.minor)

  pub moved_by-IsReported :
      (d : Direction)
      → moved_by d w amount now ≡ ok (w', m)
      → IsReported w amount w' m
        × (w'.balance.minor ≡ changed d w.balance.minor amount.minor)
        × IsInt64 w'.balance.minor
  moved_by-IsReported credit e =
      let (r, s) = credit-IsReported w amount now v h w' m e in (r, s, credit-IsInt64 e)
  moved_by-IsReported debit e =
      let (r, s) = debit-IsReported w amount now v h w' m e in (r, s, debit-IsInt64 e)

-- An entry is made for the wallet and in the direction that were asked for.
pub new_entry_fields :
    (id wallet_id transaction_id : Uuid) (d : Direction) (amount before after : Money) (now : Time)
    → (e : Entry) → new_entry id wallet_id transaction_id d amount before after now ≡ ok e
    → (e.wallet_id ≡ wallet_id) × (e.direction ≡ d) × (e.amount ≡ amount)
unfolding new_entry
new_entry_fields id wallet_id transaction_id d amount before after now e h = ground arith

module _ (env : Env) where
  entry-Triple :
      (e : Entry) (wallet_id : Uuid) (d : Direction) (amount : Money) (due : ℤ)
      → IsInt64 due
      → (e.wallet_id ≡ wallet_id) × (e.direction ≡ d) × (e.amount ≡ amount)
      → Triple
          (CanMove wallet_id due (delta d amount.minor))
          (statement env (Entries.append e))
          (λ _. IsDue wallet_id due)
  entry-Triple e wallet_id d amount due i (same, to, much) =
      rw (← same, ← to, ← much) (Triple-statement env _ (append_triple e due i))

  pub append_entry-Triple :
      (wallet_id transaction_id : Uuid) (d : Direction) (m : Movement) (now : Time) (due : ℤ)
      → IsInt64 due
      → Triple
          (CanMove wallet_id due (delta d m.amount.minor))
          (append_entry env wallet_id transaction_id d m now)
          (λ _. IsDue wallet_id due)
  unfolding append_entry
  append_entry-Triple wallet_id transaction_id d m now due i =
      Triple-bind _ _ (Leaves-new_id env _) (λ id.
        Triple-bind _ _
          (Triple-lift _
            (λ e h ws es p. (new_entry_fields id wallet_id transaction_id d _ _ _ now e h, p)))
          (λ e. Triple-given (λ fields. entry-Triple e wallet_id d m.amount due i fields)))
