-- ===== src/UseCase/Preserves/Settling.antt =====
-- The end of an operation, persistSettled to persistRejected of usecase/process_transaction.go, as runs
-- that keep a predicate of the database.
use jungle_gaming.Prelude.{Bool, Option, none, some}
use jungle_gaming.Shared.{Result, ok, err, errors_is, insufficient_funds, Uuid, Time}
use jungle_gaming.Money.{Money}
use jungle_gaming.Wallet.{Wallet, Movement}
use jungle_gaming.Ledger.{Direction, Entry}
use jungle_gaming.Wagering.Failure.{FailureCode}
use jungle_gaming.Wagering.Transaction.{Transaction}
use jungle_gaming.Repository.Tables.{Db, OutboxRecord, EventType, AggregateType, EventData}
use jungle_gaming.Repository.Wallets
use jungle_gaming.Repository.Entries
use jungle_gaming.Repository.Messages
use jungle_gaming.UseCase.Monad.{Env, raise}
use jungle_gaming.UseCase.Outbox.{
  Settlement, append_outbox, append_transaction_event, append_balance_changed,
  append_movement_event, append_processed_events, append_rejected_event, append_entry,
}
use jungle_gaming.UseCase.Process.Settle.{
  store, record_movement, persist_settled, persist_rejected, settle_or_reject, move, moved_by,
  insufficient_funds_code,
}
use jungle_gaming.UseCase.Preserves.{
  Preserves, Safe, Preserves-pure, Preserves-raise, Preserves-lift, Preserves-if,
  Preserves-statement, Preserves-bind, Preserves-new_id,
}

-- The writes that every operation may make, and that keep P.
pub record Tolerates (P : Db → Type 0) : Type 0 where
  pub entry : (e : Entry) → Safe P (Entries.append e)
  pub balance : (target : Wallet) → Safe P (Wallets.update_balance target)
  pub event : (e : OutboxRecord) → Safe P (Messages.append e)

module _ (env : Env) (P : Db → Type 0) (s : Tolerates P) where
  outbox_safe :
      (t : EventType) (a : AggregateType) (id : Uuid) (d : EventData) (now : Time)
      → Preserves P (append_outbox env t a id d now)
  unfolding append_outbox
  outbox_safe t a id d now =
      Preserves-bind _ _ (Preserves-new_id env) (λ e. Preserves-statement env _ (s.event _))

  pub transaction_event_safe :
      (t : Transaction) (k : EventType) (now : Time)
      → Preserves P (append_transaction_event env t k now)
  unfolding append_transaction_event
  transaction_event_safe t k now = outbox_safe _ _ _ _ _

  movement_event_safe :
      (t : Transaction) (applied : Option Settlement) (now : Time)
      → Preserves P (append_movement_event env t applied now)
  unfolding append_movement_event append_balance_changed
  movement_event_safe t none now = Preserves-pure tt
  movement_event_safe t (some a) now = outbox_safe _ _ _ _ _

  entry_safe :
      (wallet transaction : Uuid) (d : Direction) (m : Movement) (now : Time)
      → Preserves P (append_entry env wallet transaction d m now)
  unfolding append_entry
  entry_safe wallet transaction d m now =
      Preserves-bind _ _ (Preserves-new_id env)
        (λ id. Preserves-bind _ _ (Preserves-lift _) (λ e. Preserves-statement env _ (s.entry e)))

  movement_safe :
      (target : Wallet) (t : Transaction) (applied : Option Settlement) (now : Time)
      → Preserves P (record_movement env target t applied now)
  unfolding record_movement
  movement_safe target t none now = Preserves-pure tt
  movement_safe target t (some a) now =
      Preserves-bind _ _ (entry_safe _ _ _ _ _) (λ u. Preserves-statement env _ (s.balance target))

  module _ (create : Bool) (stores : (t : Transaction) → Preserves P (store env create t)) where
    pub persist_settled_safe :
        (target : Wallet) (t : Transaction) (applied : Option Settlement) (now : Time)
        → Preserves P (persist_settled env target t applied now create)
    unfolding persist_settled append_processed_events
    persist_settled_safe target t applied now = Preserves-bind _ _ (Preserves-lift _) (λ t'.
        Preserves-bind _ _ (stores t') (λ u.
          Preserves-bind _ _ (movement_safe target t' applied now) (λ v.
            Preserves-bind _ _
              (Preserves-bind _ _ (transaction_event_safe t' _ now)
                (λ x. movement_event_safe t' applied now))
              (λ x. Preserves-pure _))))

    pub persist_rejected_safe :
        (t : Transaction) (code : FailureCode) (now : Time)
        → Preserves P (persist_rejected env t code now create)
    unfolding persist_rejected append_rejected_event
    persist_rejected_safe t code now = Preserves-bind _ _ (Preserves-lift _) (λ t'.
        Preserves-bind _ _ (stores t')
          (λ u. Preserves-bind _ _ (transaction_event_safe t' _ now) (λ v. Preserves-pure _)))

    settle_safe :
        (t : Transaction) (d : Direction) (now : Time) (r : Result (Wallet × Movement))
        → Preserves P (settle_or_reject env t d now create r)
    unfolding settle_or_reject
    settle_safe t d now (ok (target, m)) = persist_settled_safe target t _ now
    settle_safe t d now (err e) =
        Preserves-if (errors_is e insufficient_funds)
          (persist_rejected env t (insufficient_funds_code t.kind) now create) (raise e)
          (persist_rejected_safe t _ now) (Preserves-raise e)

    pub move_safe :
        (target : Wallet) (t : Transaction) (d : Direction) (amount : Money) (now : Time)
        → Preserves P (move env target t d amount now create)
    unfolding move
    move_safe target t d amount now = settle_safe t d now (moved_by d target amount now)
