-- ===== src/UseCase/Outbox.antt =====
-- usecase/outbox_events.go and ledger_entry.go: what a processed operation appends beside its row.
use jungle_gaming.Prelude.{Option, none, some}
use jungle_gaming.Prelude.Int.{pos}
use jungle_gaming.Shared.{Uuid, Time}
use jungle_gaming.Wallet.{Wallet, Movement, opening_movement}
use jungle_gaming.Ledger.{Direction, credit, new_entry}
use jungle_gaming.Wagering.Transaction.{Transaction}
use jungle_gaming.Repository.Tables.{
  EventData, transaction_event, balance_changed, EventType, wager_transaction_processed,
  wager_transaction_rejected, wallet_balance_changed, wager_transaction_pending_reference,
  AggregateType, wallet_aggregate, transaction_aggregate,
}
use jungle_gaming.Repository.Messages
use jungle_gaming.Repository.Entries
use jungle_gaming.UseCase.Monad.{Env, M, pure, lift, ◌>>=◌, ◌>>◌, statement, new_id}

-- The movement that was applied, when there was one.
pub record Settlement : Type 0 where
  pub direction : Direction
  pub movement : Movement

abbrev pub transaction_data : Transaction → EventData
transaction_data t =
    transaction_event t.id t.wallet_id t.player_id t.provider_id t.external_id t.kind t.status
      t.failure_code t.amount

abbrev pub balance_data : Transaction → Settlement → EventData
balance_data t applied =
    balance_changed t.wallet_id t.id applied.direction applied.movement.amount
      applied.movement.balance_before applied.movement.balance_after applied.movement.version

module _ (env : Env) where
  unfoldable pub append_outbox : EventType → AggregateType → Uuid → EventData → Time → M (Unit {0})
  append_outbox event_type aggregate_type aggregate_id payload now = do
    event_id ← new_id env
    statement env (
        Messages.append (record {
          id = event_id;
          aggregate_type = aggregate_type;
          aggregate_id = aggregate_id;
          event_type = event_type;
          payload = payload;
          correlation_id = env.correlation_id;
          occurred_at = now;
          attempts = pos 0;
          next_attempt_at = now;
          locked_by = none;
          locked_until = none;
          published_at = none;
        }))

  unfoldable pub append_transaction_event : Transaction → EventType → Time → M (Unit {0})
  append_transaction_event t event_type now =
      append_outbox event_type transaction_aggregate t.id (transaction_data t) now

  unfoldable pub append_balance_changed : Transaction → Settlement → Time → M (Unit {0})
  append_balance_changed t applied now =
      append_outbox wallet_balance_changed wallet_aggregate t.wallet_id (balance_data t applied) now

  unfoldable pub append_movement_event : Transaction → Option Settlement → Time → M (Unit {0})
  append_movement_event t none now = pure tt
  append_movement_event t (some applied) now = append_balance_changed t applied now

  unfoldable pub append_processed_events : Transaction → Option Settlement → Time → M (Unit {0})
  unfolding append_movement_event
  append_processed_events t applied now = do
    append_transaction_event t wager_transaction_processed now
    append_movement_event t applied now

  unfoldable pub append_rejected_event : Transaction → Time → M (Unit {0})
  append_rejected_event t now = append_transaction_event t wager_transaction_rejected now

  unfoldable pub append_pending_reference_event : Transaction → Time → M (Unit {0})
  append_pending_reference_event t now =
      append_transaction_event t wager_transaction_pending_reference now

  unfoldable pub append_opening_events : Wallet → Transaction → Time → M (Unit {0})
  append_opening_events opened opening now = do
    append_transaction_event opening wager_transaction_processed now
    append_balance_changed opening
        (record { direction = credit; movement = opening_movement opened }) now

  -- appendEntry
  unfoldable pub append_entry : Uuid → Uuid → Direction → Movement → Time → M (Unit {0})
  append_entry wallet_id transaction_id direction movement now = do
    entry_id ← new_id env
    entry ← lift (
        new_entry entry_id wallet_id transaction_id direction movement.amount
          movement.balance_before movement.balance_after now)
    statement env (Entries.append entry)
