-- ===== src/UseCase/Books/Asides.antt =====
-- The actions of the use cases that write to neither the wallets nor the ledger.
use jungle_gaming.Prelude.{refl, arith, Bool, true, false, Option, none, some}
use jungle_gaming.Prelude.Bytes.{Bytes}
use jungle_gaming.Shared.{Uuid, Time, Result, ok, err}
use jungle_gaming.Wallet.{Wallet}
use jungle_gaming.Wagering.Failure.{FailureCode}
use jungle_gaming.Wagering.Transaction.{Transaction}
use jungle_gaming.Repository.Tables.{OutboxRecord, EventType, AggregateType, EventData}
use jungle_gaming.Repository.Wallets
use jungle_gaming.Repository.Transactions
use jungle_gaming.Repository.Messages
use jungle_gaming.UseCase.Monad.{Env, new_id}
use jungle_gaming.UseCase.Results.{Request}
use jungle_gaming.UseCase.Outbox.{
  Settlement, append_outbox, append_transaction_event, append_balance_changed,
  append_processed_events, append_rejected_event, append_pending_reference_event,
  append_opening_events,
}
use jungle_gaming.UseCase.Process.Settle.{store, persist_rejected, mark_pending}
use jungle_gaming.UseCase.Process.Apply.{find_replay, replay_by_key, replay_by_external_id}
use jungle_gaming.UseCase.Triple.{
  Leaves, IsAside, Leaves-pure, Leaves-raise, Leaves-lift, Leaves-if, Leaves-statement,
  Leaves-attempt, Leaves-bind, Leaves-new_id,
}

pub find_wallet-IsAside : (id : Uuid) → IsAside (Wallets.lock_by_id id)
unfolding Wallets.find_by_id
find_wallet-IsAside id = record { wallets_left = λ db. refl; entries_left = λ db. refl }

pub create_transaction-IsAside : (t : Transaction) → IsAside (Transactions.create t)
unfolding Transactions.create
create_transaction-IsAside t = record {
  wallets_left = λ db. ground arith;
  entries_left = λ db. ground arith;
}

pub update_transaction-IsAside : (t : Transaction) → IsAside (Transactions.update t)
unfolding Transactions.update
update_transaction-IsAside t = record {
  wallets_left = λ db. ground arith;
  entries_left = λ db. ground arith;
}

by_key-IsAside : (p k : Bytes) → IsAside (Transactions.find_by_idempotency_key p k)
unfolding Transactions.find_by_idempotency_key
by_key-IsAside p k = record { wallets_left = λ db. refl; entries_left = λ db. refl }

pub by_external_id-IsAside : (p k : Bytes) → IsAside (Transactions.find_by_external_id p k)
unfolding Transactions.find_by_external_id
by_external_id-IsAside p k = record { wallets_left = λ db. refl; entries_left = λ db. refl }

pub reversal-IsAside : (id : Uuid) → IsAside (Transactions.has_successful_reversal id)
unfolding Transactions.has_successful_reversal
reversal-IsAside id = record { wallets_left = λ db. refl; entries_left = λ db. refl }

append_event-IsAside : (e : OutboxRecord) → IsAside (Messages.append e)
unfolding Messages.append
append_event-IsAside e = record {
  wallets_left = λ db. ground arith;
  entries_left = λ db. ground arith;
}

module _ (env : Env) where
  append_outbox-Leaves :
      (t : EventType) (a : AggregateType) (id : Uuid) (d : EventData) (now : Time)
      → Leaves (append_outbox env t a id d now)
  unfolding append_outbox
  append_outbox-Leaves t a id d now =
      Leaves-bind (new_id env) _ (Leaves-new_id env)
        (λ e. Leaves-statement env _ (append_event-IsAside _))

  pub append_transaction_event-Leaves :
      (t : Transaction) (k : EventType) (now : Time) → Leaves (append_transaction_event env t k now)
  unfolding append_transaction_event
  append_transaction_event-Leaves t k now = append_outbox-Leaves _ _ _ _ _

  pub append_balance_changed-Leaves :
      (t : Transaction) (s : Settlement) (now : Time) → Leaves (append_balance_changed env t s now)
  unfolding append_balance_changed
  append_balance_changed-Leaves t s now = append_outbox-Leaves _ _ _ _ _

  pub append_processed_events-Leaves :
      (t : Transaction) (s : Option Settlement) (now : Time)
      → Leaves (append_processed_events env t s now)
  unfolding append_processed_events
  append_processed_events-Leaves t none now =
      Leaves-bind _ _ (append_transaction_event-Leaves t _ now) (λ u. Leaves-pure tt)
  append_processed_events-Leaves t (some s) now =
      Leaves-bind _ _ (append_transaction_event-Leaves t _ now)
        (λ u. append_balance_changed-Leaves t s now)

  pub append_opening_events-Leaves :
      (w : Wallet) (t : Transaction) (now : Time) → Leaves (append_opening_events env w t now)
  unfolding append_opening_events
  append_opening_events-Leaves w t now =
      Leaves-bind _ _ (append_transaction_event-Leaves t _ now)
        (λ u. append_balance_changed-Leaves t _ now)

  pub store-Leaves : (create : Bool) (t : Transaction) → Leaves (store env create t)
  unfolding store
  store-Leaves true t = Leaves-statement env _ (create_transaction-IsAside t)
  store-Leaves false t = Leaves-statement env _ (update_transaction-IsAside t)

  pub persist_rejected-Leaves :
      (t : Transaction) (code : FailureCode) (now : Time) (create : Bool)
      → Leaves (persist_rejected env t code now create)
  unfolding persist_rejected append_rejected_event
  persist_rejected-Leaves t code now create = Leaves-bind _ _ (Leaves-lift _) (λ t'.
      Leaves-bind _ _ (store-Leaves create t')
        (λ u. Leaves-bind _ _ (append_transaction_event-Leaves t' _ now) (λ v. Leaves-pure _)))

  pub mark_pending-Leaves : (t : Transaction) (now : Time) → Leaves (mark_pending env t now)
  unfolding mark_pending append_pending_reference_event
  mark_pending-Leaves t now = Leaves-bind _ _ (Leaves-lift _) (λ t'.
      Leaves-bind _ _ (Leaves-statement env _ (create_transaction-IsAside t'))
        (λ u. Leaves-bind _ _ (append_transaction_event-Leaves t' _ now) (λ v. Leaves-pure _)))

  replay_by_external_id-Leaves : (r : Result Transaction) → Leaves (replay_by_external_id env r)
  unfolding replay_by_external_id
  replay_by_external_id-Leaves (ok t) = Leaves-raise _
  replay_by_external_id-Leaves (err e) = Leaves-if _ _ _ (Leaves-pure none) (Leaves-raise e)

  replay_by_key-Leaves :
      (parsed : Request) (r : Result Transaction) → Leaves (replay_by_key env parsed r)
  unfolding replay_by_key
  replay_by_key-Leaves parsed (ok t) = Leaves-if _ _ _ (Leaves-raise _) (Leaves-pure _)
  replay_by_key-Leaves parsed (err e) = Leaves-if _ _ _ (Leaves-raise e) (
      Leaves-bind _ _ (Leaves-attempt env _ (by_external_id-IsAside _ _))
        (λ r. replay_by_external_id-Leaves r))

  pub find_replay-Leaves : (parsed : Request) → Leaves (find_replay env parsed)
  unfolding find_replay
  find_replay-Leaves parsed =
      Leaves-bind _ _ (Leaves-attempt env _ (by_key-IsAside _ _))
        (λ r. replay_by_key-Leaves parsed r)
