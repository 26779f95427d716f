-- ===== src/UseCase/Books/Keeping.antt =====
-- The books under ExecuteIn and Execute of usecase/process_transaction.go.
use jungle_gaming.Prelude.{
  ◌≡◌, refl, sym, ap, ◌∙◌, Bool, true, false, Option, none, some, List, arith, not, if◌then◌else◌,
}
use jungle_gaming.Prelude.Bytes.{bytes_eq}
use jungle_gaming.Prelude.Int64.{IsInt64}
use jungle_gaming.Shared.{Result, ok, err, Time, Uuid, errors_is, not_found, id_equal}
use jungle_gaming.Money.{Money}
use jungle_gaming.Money.Text
use jungle_gaming.Money.Text.Contract.{parse_sound}
use jungle_gaming.Wallet.{Wallet}
use jungle_gaming.Wagering.Kind.{Kind, opening, bet, win, loss, refund, rollback, is_reversal}
use jungle_gaming.Wagering.Status.{is_terminal}
use jungle_gaming.Wagering.Failure.{FailureCode}
use jungle_gaming.Wagering.Transaction.{Transaction}
use jungle_gaming.Repository.Rows.{WalletRow, EntryRow, rehydrate_wallet}
use jungle_gaming.Repository.Tables.{find_row, scan_row}
use jungle_gaming.Repository.RowLaws.{rehydrate_wallet_sound}
use jungle_gaming.Repository.Entries.{sum_entries}
use jungle_gaming.Repository.Wallets
use jungle_gaming.UseCase.Monad.{Env, World, raise}
use jungle_gaming.UseCase.Results.{Command, Request, TransactionResult}
use jungle_gaming.UseCase.Process.{process, execute_in, resume_or_apply}
use jungle_gaming.UseCase.Process.Parse.{parse}
use jungle_gaming.UseCase.Process.Apply.{
  apply_direct, reverse, reversal_direction, reversal_rejection, check_reversal, with_reference,
  apply_reversal, apply_to, apply,
}
use jungle_gaming.UseCase.Process.Settle.{persist_settled, persist_rejected, mark_pending}
use jungle_gaming.UseCase.Triple.{
  Triple, StatementTriple, Triple-bind, Triple-lift, Triple-pure, Triple-raise, Triple-statement,
  Triple-given, Triple-if, Triple-consequence, Leaves-lift, Leaves-new_id, Leaves-read_clock,
  Leaves-statement, Leaves-attempt, execute-keeps, on_read,
}
use jungle_gaming.UseCase.Books.{IsBooked, has_id, find-IsBooked}
use jungle_gaming.UseCase.Books.Asides.{
  persist_rejected-Leaves, mark_pending-Leaves, find_replay-Leaves, reversal-IsAside,
  by_external_id-IsAside,
}
use jungle_gaming.UseCase.Books.Moving.{IsLocked, aside, persist_settled-Triple, move-Triple}

module _ (env : Env) (target : Wallet) where
  still-Triple :
      (t : Transaction) (now : Time)
      → Triple (IsLocked target) (persist_settled env target t none now true) (λ _. IsBooked)
  still-Triple t now =
      Triple-consequence _ (persist_settled-Triple env target t none now true)
        (λ ws es (v, b, s). b) (λ a ws es p. p)

  apply_direct-Triple :
      (kind : Kind) (t : Transaction) (amount : Money) (now : Time)
      → IsInt64 amount.minor
      → Triple (IsLocked target) (apply_direct env kind target t amount now) (λ _. IsBooked)
  unfolding apply_direct
  apply_direct-Triple bet t amount now h = move-Triple env target amount now h t _ true
  apply_direct-Triple win t amount now h = move-Triple env target amount now h t _ true
  apply_direct-Triple loss t amount now h = still-Triple t now
  apply_direct-Triple opening t amount now h = still-Triple t now
  apply_direct-Triple refund t amount now h = still-Triple t now
  apply_direct-Triple rollback t amount now h = still-Triple t now

  module _ (parsed : Request) (h : IsInt64 parsed.amount.minor) (t : Transaction) (now : Time) where
    reverse-Triple :
        (reference : Transaction) (reverted : Bool)
        → Triple
            (IsLocked target)
            (reverse env target t reference parsed now reverted)
            (λ _. IsBooked)
    unfolding reverse
    reverse-Triple reference true = aside target _ (persist_rejected-Leaves env t _ now true)
    reverse-Triple reference false = Triple-bind _ _ (Leaves-lift _ _) (λ t'.
        move-Triple env target parsed.amount now h t' (reversal_direction reference.kind) true)

    check_reversal-Triple :
        (reference : Transaction) (code : Option FailureCode)
        → Triple
            (IsLocked target)
            (check_reversal env target t reference parsed now code)
            (λ _. IsBooked)
    unfolding check_reversal
    check_reversal-Triple reference (some code) =
        aside target _ (persist_rejected-Leaves env t code now true)
    check_reversal-Triple reference none =
        Triple-bind _ _ (Leaves-statement env _ (reversal-IsAside _) _)
          (λ r. reverse-Triple reference r)

    with_reference-Triple :
        (r : Result Transaction)
        → Triple (IsLocked target) (with_reference env target t parsed now r) (λ _. IsBooked)
    unfolding with_reference
    with_reference-Triple (err e) =
        Triple-if (errors_is e not_found) (mark_pending env t now) (raise e)
          (λ u. aside target _ (mark_pending-Leaves env t now)) (λ u. Triple-raise e)
    with_reference-Triple (ok r) =
        Triple-if (not (is_terminal r.status)) (mark_pending env t now)
          (check_reversal env target t r parsed now (reversal_rejection r parsed))
          (λ u. aside target _ (mark_pending-Leaves env t now)) (λ u. check_reversal-Triple r _)

    apply_reversal-Triple :
        Triple (IsLocked target) (apply_reversal env target t parsed now) (λ _. IsBooked)
    unfolding apply_reversal
    apply_reversal-Triple =
        Triple-bind _ _ (Leaves-attempt env _ (by_external_id-IsAside _ _) _)
          (λ r. with_reference-Triple r)

    apply_to-Triple : Triple (IsLocked target) (apply_to env target parsed t now) (λ _. IsBooked)
    unfolding apply_to
    apply_to-Triple =
        Triple-if (not (id_equal target.player_id parsed.player_id))
          (persist_rejected env t FailureCode.wallet_player_mismatch now true)
          (if not (bytes_eq target.currency parsed.amount.currency)
            then persist_rejected env t FailureCode.currency_mismatch now true
            else if is_reversal parsed.kind
            then apply_reversal env target t parsed now
            else apply_direct env parsed.kind target t parsed.amount now)
          (λ u. aside target _ (persist_rejected-Leaves env t _ now true))
          (λ u.
            Triple-if (not (bytes_eq target.currency parsed.amount.currency))
              (persist_rejected env t FailureCode.currency_mismatch now true) _
              (λ u. aside target _ (persist_rejected-Leaves env t _ now true))
              (λ u.
                Triple-if (is_reversal parsed.kind) (apply_reversal env target t parsed now)
                  (apply_direct env parsed.kind target t parsed.amount now)
                  (λ u. apply_reversal-Triple)
                  (λ u. apply_direct-Triple parsed.kind t parsed.amount now h)))

  apply-Triple :
      (parsed : Request)
      → IsInt64 parsed.amount.minor
      → Triple (IsLocked target) (apply env target parsed) (λ _. IsBooked)
  unfolding apply
  apply-Triple parsed h = Triple-bind _ _ (Leaves-new_id env _) (λ id.
      Triple-bind _ _ (Leaves-read_clock env _)
        (λ now. Triple-bind _ _ (Leaves-lift _ _) (λ t. apply_to-Triple parsed h t now)))

  resume_or_apply-Triple :
      (parsed : Request) (replay : Option TransactionResult)
      → IsInt64 parsed.amount.minor
      → Triple (IsLocked target) (resume_or_apply env target parsed replay) (λ _. IsBooked)
  unfolding resume_or_apply
  resume_or_apply-Triple parsed (some r) h = Triple-pure r (λ ws es (v, b, s). b)
  resume_or_apply-Triple parsed none h = apply-Triple parsed h

-- The wallet of a booked row is locked.
row_IsLocked :
    (id : Uuid) (target : Wallet) (ws : List WalletRow) (es : List EntryRow)
    (row : Option WalletRow)
    → IsBooked ws es
    → find_row (has_id id) ws ≡ row
    → scan_row rehydrate_wallet row ≡ ok target
    → IsLocked target ws es
row_IsLocked id target ws es none b f e = cc
row_IsLocked id target ws es (some row) b f e =
    let ((fits, sum), same) = find-IsBooked id es ws row b.balances f in
    let (v, stored, _) = rehydrate_wallet_sound row target fits e in
    let balance = ap (λ (x : WalletRow). x.balance_minor) stored in
    let name = ap (λ (x : WalletRow). x.id) stored in
    (v, b, balance ∙ sum ∙ ap (λ (x : Uuid). sum_entries x es) (sym name))

pub lock_triple :
    (id : Uuid) → StatementTriple IsBooked (Wallets.lock_by_id id) (λ target. IsLocked target)
unfolding Wallets.find_by_id
lock_triple id db b =
    on_read _ _ db (λ target e. row_IsLocked id target db.wallets db.entries _ b refl e)

parsed_amount :
    (env : Env) (c : Command) (r : Request)
    → parse env c ≡ ok r
    → Text.parse c.money.amount c.money.currency ≡ ok r.amount
unfolding parse
parsed_amount env c r h = ground arith

-- The amount of a parsed request is an int64.
parse-IsInt64 :
    (env : Env) (c : Command) (r : Request) → parse env c ≡ ok r → IsInt64 r.amount.minor
unfolding parse
parse-IsInt64 env c r h =
    let (_, _, _, (low, high)) =
      parse_sound c.money.amount c.money.currency r.amount (parsed_amount env c r h) in
    (omega arith, omega arith)

module _ (env : Env) where
  execute_in-Triple : (c : Command) → Triple IsBooked (execute_in env c) (λ _. IsBooked)
  unfolding execute_in
  execute_in-Triple c =
      Triple-bind _ _ (Triple-lift (parse env c) (λ r e ws es b. (parse-IsInt64 env c r e, b)))
        (λ parsed. Triple-given (λ h.
          Triple-bind _ _ (Triple-statement env _ (lock_triple parsed.wallet_id)) (λ target.
            Triple-bind _ _ (find_replay-Leaves env parsed _)
              (λ replay. resume_or_apply-Triple env target parsed replay h))))

  -- Processing a command keeps the books: if the balance of every stored wallet is an int64 and the sum
  -- of its ledger entries, and every entry is of a stored wallet, then the same holds after the unit of
  -- work, whatever the command says, the identifiers and instants that it is given, and the calls of
  -- the database that fail.
  pub process-IsBooked :
      (c : Command) (w : World)
      → IsBooked w.db.wallets w.db.entries
      → IsBooked (process env c w).1.db.wallets (process env c w).1.db.entries
  unfolding process
  process-IsBooked c w b = execute-keeps env (execute_in env c) IsBooked (execute_in-Triple c) w b
