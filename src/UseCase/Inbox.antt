-- ===== src/UseCase/Inbox.antt =====
-- usecase/handle_message.go: HandleWagerMessage, a delivery of the queue whose inbox record is written in
-- the unit of work of the operation.
pub mod Envelope
pub mod Delivery
pub mod Recorded
pub mod Outcome
pub mod Examples
use jungle_gaming.Prelude.{Bool, true, false, not, if◌then◌else◌}
use jungle_gaming.Prelude.Bytes.{Bytes, bytes_eq}
use jungle_gaming.Shared.{
  Error, Result, ok, err, domain, caused, external, wrapped, errors_is, not_found,
  persistence_conflict, Uuid, Time,
}
use jungle_gaming.Repository.Tables.{InboxMessage}
use jungle_gaming.Repository.Messages.{find_message, record_message}
use jungle_gaming.UseCase.Monad.{
  Env, M, pure, raise, attempt, ◌>>=◌, ◌>>◌, statement, new_id, read_clock, execute,
}
use jungle_gaming.UseCase.Results.{TransactionResult, no_result}
use jungle_gaming.UseCase.Process.{execute_in}
use Envelope.{Decoder, Handler, Parcel, parse_envelope, err_inbox_payload_mismatch}

-- isTransientMessageError: the first error of the chain that is the domain's has one of the four kinds.
unfoldable pub is_transient : Error → Bool
is_transient (domain k c) = false
is_transient (caused k c e) = false
is_transient (external n) = true
is_transient (wrapped e) = is_transient e

abbrev pub inbox_message : Uuid → Handler → Parcel → Time → InboxMessage
inbox_message id handler parcel now = record {
  id = id;
  consumer_name = handler.consumer_name;
  message_id = parcel.message_id;
  payload_hash = parcel.hash;
  received_at = now;
}

-- A delivery that the inbox has: nothing is done again.
unfoldable pub compare_delivery : Parcel → InboxMessage → M TransactionResult
compare_delivery parcel existing =
    if not (bytes_eq existing.payload_hash parcel.hash)
    then raise err_inbox_payload_mismatch
    else pure no_result

-- What is left of a failure of the operation: the inbox keeps the message unless it is transient.
unfoldable pub settle_outcome : Result TransactionResult → M TransactionResult
settle_outcome (ok result) = pure result
settle_outcome (err e) = if is_transient e then raise e else pure no_result

module _ (env : Env) (handler : Handler) where
  unfoldable pub apply_recorded : Parcel → Result (Unit {0}) → M TransactionResult
  unfolding compare_delivery settle_outcome
  apply_recorded parcel (ok u) = do
    outcome ← attempt (execute_in env parcel.command)
    settle_outcome outcome
  apply_recorded parcel (err e) = if not (errors_is e persistence_conflict) then raise e else do
    existing ← statement env (find_message handler.consumer_name parcel.message_id)
    compare_delivery parcel existing

  unfoldable pub apply_delivery : Parcel → Result InboxMessage → M TransactionResult
  unfolding compare_delivery apply_recorded
  apply_delivery parcel (ok existing) = compare_delivery parcel existing
  apply_delivery parcel (err e) = if not (errors_is e not_found) then raise e else do
    inbox_id ← new_id env
    now ← read_clock env
    recorded ← attempt (statement env (record_message (inbox_message inbox_id handler parcel now)))
    apply_recorded parcel recorded

  -- The function of the unit of work.
  unfoldable pub deliver : Parcel → M TransactionResult
  unfolding apply_delivery
  deliver parcel = do
    existing ← attempt (statement env (find_message handler.consumer_name parcel.message_id))
    apply_delivery parcel existing

  unfoldable pub handle_parcel : Result Parcel → M TransactionResult
  handle_parcel (ok parcel) = execute env (deliver parcel)
  handle_parcel (err e) = raise e

  -- (*HandleWagerMessage).Handle
  unfoldable pub handle : Decoder → Bytes → M TransactionResult
  unfolding handle_parcel
  handle decoder raw = handle_parcel (parse_envelope env decoder handler raw)
