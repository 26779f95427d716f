-- ===== src/UseCase/Books/Moving.antt =====
-- The books under persistSettled and move of usecase/process_transaction.go.
use jungle_gaming.Prelude.{◌≡◌, refl, Bool, Option, none, some, List}
use jungle_gaming.Prelude.Int.{int_laws}
use jungle_gaming.Prelude.Int64.{IsInt64}
use jungle_gaming.Shared.{Result, ok, err, errors_is, insufficient_funds, Time}
use jungle_gaming.Money.{Money}
use jungle_gaming.Wallet.{Wallet, Movement}
use jungle_gaming.Wallet.Movements.{IsValid}
use jungle_gaming.Ledger.{Direction}
use jungle_gaming.Ledger.Equation.{delta, changed-delta}
use jungle_gaming.Wagering.Transaction.{Transaction}
use jungle_gaming.Repository.Rows.{WalletRow, EntryRow}
use jungle_gaming.Repository.Entries.{sum_entries}
use jungle_gaming.UseCase.Monad.{Env, M, raise}
use jungle_gaming.UseCase.Outbox.{Settlement}
use jungle_gaming.UseCase.Process.Settle.{
  record_movement, persist_settled, settle_or_reject, move, moved_by, persist_rejected,
  insufficient_funds_code,
}
use jungle_gaming.UseCase.Triple.{
  Claim, Triple, Triple-bind, Triple-pure, Triple-raise, Triple-statement, Triple-given, Triple-if,
  Triple-consequence, Leaves, Leaves-lift,
}
use jungle_gaming.UseCase.Books.{IsBooked}
use jungle_gaming.UseCase.Books.Asides.{
  store-Leaves, persist_rejected-Leaves, append_processed_events-Leaves,
}
use jungle_gaming.UseCase.Books.Settling.{
  CanMove, append_entry-Triple, update_triple, moved_by-IsReported,
}

-- What the end of an operation asks of the tables: closed books, and a balance that is due if there
-- was a movement.
abbrev pub Ready : Wallet → Option Settlement → Claim
Ready target none ws es = IsBooked ws es
Ready target (some s) ws es =
    IsInt64 target.balance.minor
    × CanMove target.id target.balance.minor (delta s.direction s.movement.amount.minor) ws es

-- A wallet that is locked: valid, and in agreement with closed books.
abbrev pub IsLocked : Wallet → Claim
IsLocked target ws es =
    IsValid target × IsBooked ws es × (target.balance.minor ≡ sum_entries target.id es)

-- An action that writes to neither table, before which the wallet was locked.
pub aside :
    {A : Type 0} (target : Wallet) (m : M A) → Leaves m → Triple (IsLocked target) m (λ _. IsBooked)
aside target m h =
    Triple-consequence m (h (IsLocked target)) (λ ws es p. p) (λ a ws es (v, b, s). b)

module _ (env : Env) where
  record_movement-Triple :
      (target : Wallet) (t : Transaction) (applied : Option Settlement) (now : Time)
      → Triple (Ready target applied) (record_movement env target t applied now) (λ _. IsBooked)
  unfolding record_movement
  record_movement-Triple target t none now = Triple-pure tt (λ ws es p. p)
  record_movement-Triple target t (some s) now = Triple-given (λ i.
      Triple-bind _ _
        (append_entry-Triple env target.id t.id s.direction s.movement now target.balance.minor i)
        (λ u. Triple-statement env _ (update_triple target)))

  pub persist_settled-Triple :
      (target : Wallet) (t : Transaction) (applied : Option Settlement) (now : Time) (create : Bool)
      → Triple
          (Ready target applied)
          (persist_settled env target t applied now create)
          (λ _. IsBooked)
  unfolding persist_settled
  persist_settled-Triple target t applied now create = Triple-bind _ _ (Leaves-lift _ _) (λ t'.
      Triple-bind _ _ (store-Leaves env create t' _) (λ u.
        Triple-bind _ _ (record_movement-Triple target t' applied now) (λ v.
          Triple-bind _ _ (append_processed_events-Leaves env t' applied now _)
            (λ x. Triple-pure _ (λ ws es p. p)))))

  module _ (target : Wallet) (amount : Money) (now : Time) (h : IsInt64 amount.minor) where
    due_lem :
        (d : Direction) (w' : Wallet) (m : Movement)
        → moved_by d target amount now ≡ ok (w', m)
        → (ws : List WalletRow) (es : List EntryRow) → IsLocked target ws es
        → Ready w' (some (record { direction = d; movement = m })) ws es
    due_lem d w' m e ws es (v, b, s) =
        let (r, sum, i) = moved_by-IsReported target amount now v h w' m d e in
        (
          i,
          (
            b,
            rw
                (
                  r.same_id,
                  r.amount_reported,
                  sum,
                  changed-delta d target.balance.minor amount.minor,
                  s,
                )
                (omega int_laws),
          ),
        )

    settle-Triple :
        (t : Transaction) (d : Direction) (create : Bool) (r : Result (Wallet × Movement))
        → moved_by d target amount now ≡ r
        → Triple (IsLocked target) (settle_or_reject env t d now create r) (λ _. IsBooked)
    unfolding settle_or_reject
    settle-Triple t d create (ok (w', m)) e =
        Triple-consequence _ (persist_settled-Triple w' t _ now create) (due_lem d w' m e)
          (λ a ws es p. p)
    settle-Triple t d create (err x) e =
        Triple-if (errors_is x insufficient_funds)
          (persist_rejected env t (insufficient_funds_code t.kind) now create) (raise x)
          (λ u. aside target _ (persist_rejected-Leaves env t _ now create)) (λ u. Triple-raise x)

    pub move-Triple :
        (t : Transaction) (d : Direction) (create : Bool)
        → Triple (IsLocked target) (move env target t d amount now create) (λ _. IsBooked)
    unfolding move
    move-Triple t d create = settle-Triple t d create _ refl
