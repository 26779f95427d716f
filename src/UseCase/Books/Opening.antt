-- ===== src/UseCase/Books/Opening.antt =====
-- The books under usecase/open_wallet.go.
use jungle_gaming.Prelude.{
  ◌≡◌, refl, ap, ◌∙◌, Bool, true, false, arith, if◌then◌else◌, Bool-cases, inl, inr,
}
use jungle_gaming.Prelude.Int.{pos, eqb_ℤ_iff}
use jungle_gaming.Prelude.Int64.{IsInt64}
use jungle_gaming.Shared.{
  Result, ok, err, Error, errors_is, with_cause, persistence_conflict, Uuid, Time,
}
use jungle_gaming.Money.{Money, is_zero, is_negative}
use jungle_gaming.Wallet.{Wallet, opening_movement}
use jungle_gaming.Ledger.{Entry, credit}
use jungle_gaming.Repository.Rows.{to_entry_row}
use jungle_gaming.Repository.Entries
use jungle_gaming.Repository.Entries.{sum_entries, signed_amount, admits}
use jungle_gaming.UseCase.Monad.{
  Env, World, M, raise, lift, ◌>>=◌, continue, new_id, read_clock, execute, pure,
}
use jungle_gaming.UseCase.Results.{err_wallet_already_exists}
use jungle_gaming.UseCase.Outbox.{append_entry}
use jungle_gaming.UseCase.OpenWallet.{OpenCommand, record_opening, created, store_opened, open_for}
use jungle_gaming.UseCase.Triple.{
  Claim, StatementTriple, Triple, Triple-bind, Triple-lift, Triple-pure, Triple-raise, Triple-if,
  Triple-given, Triple-statement, Triple-attempt, Attempted, Leaves-lift, Leaves-statement,
  Leaves-new_id, execute-keeps,
}
use jungle_gaming.UseCase.Books.{IsBooked}
use jungle_gaming.UseCase.Books.Settling.{signed_amount_lem, new_entry_fields}
use jungle_gaming.UseCase.Books.Asides.{create_transaction-IsAside, append_opening_events-Leaves}
use jungle_gaming.UseCase.Books.NewRow.{IsNew, new_zero-IsBooked, new_entry-IsBooked, create_triple}
use jungle_gaming.Wallet.{open_wallet}
use jungle_gaming.Wallet.Lifecycle.{open_wallet-IsValid}
use jungle_gaming.Money.Text
use jungle_gaming.Money.Text.Contract.{parse_sound}
use jungle_gaming.UseCase.Process.Parse.{parse_id_input}
use jungle_gaming.UseCase.Results.{err_invalid_input}

-- The entry of an opening that is recorded.
opening_entry_triple :
    (opened : Wallet) (e : Entry)
    → IsInt64 opened.balance.minor
    → (e.wallet_id ≡ opened.id) × (e.direction ≡ credit) × (e.amount ≡ opened.balance)
    → StatementTriple (IsNew opened) (Entries.append e) (λ _. IsBooked)
unfolding Entries.append
opening_entry_triple opened e i (same, to, much) db n =
    elim (Bool-cases (admits (to_entry_row e) db)) [
      | inl t ↦ rw t (
          new_entry-IsBooked opened (to_entry_row e) db.wallets db.entries i same
            (signed_amount_lem credit e to ∙ ap (λ (m : Money). m.minor) much) n)
      | inr f ↦ rw f tt
    ]

module _ (env : Env) (opened : Wallet) (i : IsInt64 opened.balance.minor) where
  opening_append_entry-Triple :
      (id : Uuid) (now : Time)
      → Triple
          (IsNew opened)
          (append_entry env opened.id id credit (opening_movement opened) now)
          (λ _. IsBooked)
  unfolding append_entry opening_movement
  opening_append_entry-Triple id now = Triple-bind _ _ (Leaves-new_id env _) (λ entry_id.
      Triple-bind _ _
        (Triple-lift _
          (λ e h ws es p. (new_entry_fields entry_id opened.id id credit _ _ _ now e h, p)))
        (λ e.
          Triple-given (λ fields. Triple-statement env _ (opening_entry_triple opened e i fields))))

  record_opening-Triple : Triple (IsNew opened) (record_opening env opened) (λ _. IsBooked)
  unfolding record_opening
  record_opening-Triple = Triple-bind _ _ (Leaves-new_id env _) (λ id.
      Triple-bind _ _ (Leaves-lift _ _) (λ t.
        Triple-bind _ _ (Leaves-statement env _ (create_transaction-IsAside t) _) (λ u.
          Triple-bind _ _ (opening_append_entry-Triple t.id opened.created_at)
            (λ v. append_opening_events-Leaves env opened t opened.created_at _))))

  created-Triple :
      (r : Result (Unit {0}))
      → Triple (Attempted (λ _. IsNew opened) r) (created env r) (λ _. IsNew opened)
  unfolding created
  created-Triple (ok u) = Triple-pure tt (λ ws es p. p)
  created-Triple (err e) =
      Triple-if (errors_is e persistence_conflict) (raise (with_cause err_wallet_already_exists e))
        (raise e) (λ u. Triple-raise _) (λ u. Triple-raise e)

  store_opened-Triple : Triple IsBooked (store_opened env opened) (λ _. IsBooked)
  unfolding store_opened
  store_opened-Triple = Triple-bind _ _ (Triple-attempt env _ (create_triple opened)) (λ r.
      Triple-bind _ _ (created-Triple r) (λ u.
        Triple-if (is_zero opened.balance) _ (record_opening env opened)
          (λ z. Triple-pure tt (λ ws es n.
            new_zero-IsBooked opened ws es i ((eqb_ℤ_iff opened.balance.minor (pos 0)).0 z) n))
          (λ z. record_opening-Triple)))

-- A claim that holds of the tables whatever an action does, and what its value is known to be.
record Keeps {A : Type 0} (P : Claim) (m : M A) : Type 0 where
  at : (w : World) → P w.db.wallets w.db.entries → P (m w).1.db.wallets (m w).1.db.entries

module _ {A B : Type 0} {P : Claim} where
  Keeps-lift :
      (r : Result A) (f : A → M B) → ((a : A) → r ≡ ok a → Keeps P (f a)) → Keeps P (lift r >>= f)
  Keeps-lift (ok a) f h = record { at = λ w p. (h a refl).at w p }
  Keeps-lift (err e) f h = record { at = λ w p. p }

  continue_keeps :
      (r : Result A) (f : A → M B) (w : World)
      → ((a : A) → Keeps P (f a))
      → P w.db.wallets w.db.entries
      → P (continue r f w).1.db.wallets (continue r f w).1.db.entries
  continue_keeps (ok a) f w h p = (h a).at w p
  continue_keeps (err e) f w h p = p

  Keeps-bind : (m : M A) (f : A → M B) → Keeps P m → ((a : A) → Keeps P (f a)) → Keeps P (m >>= f)
  Keeps-bind m f k h = record { at = λ w p. continue_keeps (m w).0 f (m w).1 h (k.at w p) }

module _ {P : Claim} where
  Keeps-refuse : (b : Bool) (e : Error) → Keeps P (if b then raise {A = Unit {0}} e else pure tt)
  Keeps-refuse true e = record { at = λ w p. p }
  Keeps-refuse false e = record { at = λ w p. p }

  Keeps-pure : {A : Type 0} (a : A) → Keeps P (pure a)
  Keeps-pure a = record { at = λ w p. p }

  module _ (env : Env) where
    Keeps-new_id : Keeps P (new_id env)
    unfolding new_id
    Keeps-new_id = record { at = λ w p. p }

    Keeps-read_clock : Keeps P (read_clock env)
    unfolding read_clock
    Keeps-read_clock = record { at = λ w p. p }

module _ (env : Env) where
  stored :
      (c : OpenCommand) (initial : Money)
      → Text.parse c.initial_balance.amount c.initial_balance.currency ≡ ok initial
      → (id player_id : Uuid) (now : Time) (opened : Wallet)
      → open_wallet id player_id initial now ≡ ok opened
      → Keeps IsBooked (execute env (store_opened env opened))
  stored c initial e id player_id now opened o =
      let (_, _, _, (low, high)) = parse_sound _ _ initial e in
      let (v, _, _, _, _) =
        open_wallet-IsValid id player_id initial now opened (omega arith, omega arith) o in
      record { at = execute-keeps env _ IsBooked (store_opened-Triple env opened v.balance_int64) }

  open_for-Keeps : (c : OpenCommand) → Keeps IsBooked (open_for env c)
  unfolding open_for
  open_for-Keeps c = Keeps-lift (parse_id_input env.uuid_parse c.player_id) _ (λ player_id e.
      Keeps-lift (Text.parse c.initial_balance.amount c.initial_balance.currency) _ (λ initial e'.
        Keeps-bind _ _ (Keeps-refuse (is_negative initial) err_invalid_input) (λ u.
          Keeps-bind _ _ (Keeps-new_id env) (λ id. Keeps-bind _ _ (Keeps-read_clock env) (λ now.
            Keeps-lift (open_wallet id player_id initial now) _ (λ opened e3.
              Keeps-bind _ _ (stored c initial e' id player_id now opened e3)
                (λ v. Keeps-pure opened)))))))

  -- Opening a wallet keeps the books: if the balance of every stored wallet is an int64 and the sum of
  -- its ledger entries, and every entry is of a stored wallet, then the same holds after the command,
  -- the new wallet included, whatever the command says and whichever call fails.
  pub open_for-IsBooked :
      (c : OpenCommand) (w : World)
      → IsBooked w.db.wallets w.db.entries
      → IsBooked (open_for env c w).1.db.wallets (open_for env c w).1.db.entries
  open_for-IsBooked c w b = (open_for-Keeps c).at w b
