-- ===== src/UseCase/Inbox/Delivery.antt =====
-- A delivery of usecase/handle_message.go that the inbox has already.
use jungle_gaming.Prelude.{ℕ, suc, ◌≡◌, refl, Bool, true, false, none, some}
use jungle_gaming.Prelude.Bytes.{Bytes, bytes_eq}
use jungle_gaming.Shared.{Result, ok, err}
use jungle_gaming.Repository.Tables.{InboxMessage, find_row}
use jungle_gaming.Repository.Messages.{find_message, is_delivery}
use jungle_gaming.UseCase.Monad.{Env, World, execute, opened}
use jungle_gaming.UseCase.Results.{TransactionResult, no_result}
use jungle_gaming.UseCase.Replay.{answered}
use jungle_gaming.UseCase.Inbox.{compare_delivery, apply_delivery, deliver, handle_parcel, handle}
use jungle_gaming.UseCase.Inbox.Envelope.{
  Decoder, Handler, Parcel, parse_envelope, err_inbox_payload_mismatch,
}
use jungle_gaming.UseCase.Inbox.Recorded.{handle-IsRecorded}

-- What the worker is told of a message that the inbox has with a payload.
abbrev pub repeated : Bool → Result TransactionResult
repeated true = ok no_result
repeated false = err err_inbox_payload_mismatch

compared :
    (parcel : Parcel) (m : InboxMessage) (w : World) (same : Bool)
    → bytes_eq m.payload_hash parcel.hash ≡ same
    → compare_delivery parcel m w ≡ (repeated same, w)
unfolding compare_delivery
compared parcel m w true h = rw h refl
compared parcel m w false h = rw h refl

module _ (env : Env) (handler : Handler) (parcel : Parcel) (m : InboxMessage)
    (works : (n : ℕ) → env.fault n ≡ none) where
  delivered :
      (w : World)
      → w.aborted ≡ false
      → find_row (is_delivery handler.consumer_name parcel.message_id) w.db.inbox ≡ some m
      → deliver env handler parcel w ≡ (repeated (bytes_eq m.payload_hash parcel.hash), opened w)
  unfolding deliver apply_delivery find_message
  delivered w sound found =
      rw
        (
          answered env (find_message handler.consumer_name parcel.message_id) w (works w.calls)
              sound,
          found,
        )
        (compared parcel m (opened w) _ refl)

  ended_unit :
      (same : Bool) (w : World)
      → deliver env handler parcel (opened w) ≡ (repeated same, opened (opened w))
      → ((execute env (deliver env handler parcel) w).0 ≡ repeated same)
        × ((execute env (deliver env handler parcel) w).1.db ≡ w.db)
  unfolding execute
  ended_unit true w h = rw (works w.calls, h, works (suc (suc w.calls))) (refl, refl)
  ended_unit false w h = rw (works w.calls, h) (refl, refl)

-- With a database that answers, a delivery whose message the inbox has under the consumer leaves the
-- database as it was: with the hash of the recorded payload it ends without an error and with an empty
-- result, with another hash as a mismatch.
pub handle-repeated :
    (env : Env) (decoder : Decoder) (handler : Handler) (raw : Bytes) (parcel : Parcel) (w : World)
    (m : InboxMessage)
    → ((n : ℕ) → env.fault n ≡ none)
    → parse_envelope env decoder handler raw ≡ ok parcel
    → find_row (is_delivery handler.consumer_name parcel.message_id) w.db.inbox ≡ some m
    → ((handle env handler decoder raw w).0 ≡ repeated (bytes_eq m.payload_hash parcel.hash))
      × ((handle env handler decoder raw w).1.db ≡ w.db)
unfolding handle handle_parcel
handle-repeated env decoder handler raw parcel w m works p found = rw p (
    ended_unit env handler parcel m works _ w
      (delivered env handler parcel m works (opened w) refl found))

-- A delivery that was handled without an error has no second effect: the same message, handled again on
-- the tables that the first handling left and with a database that answers then, ends without an error
-- and with an empty result, and changes nothing.
pub handle_twice :
    (env env' : Env) (decoder : Decoder) (handler : Handler) (raw : Bytes) (parcel : Parcel)
    (w w' : World) (r : TransactionResult)
    → parse_envelope env decoder handler raw ≡ ok parcel
    → (handle env handler decoder raw w).0 ≡ ok r
    → ((n : ℕ) → env'.fault n ≡ none)
    → parse_envelope env' decoder handler raw ≡ ok parcel
    → w'.db ≡ (handle env handler decoder raw w).1.db
    → ((handle env' handler decoder raw w').0 ≡ ok no_result)
      × ((handle env' handler decoder raw w').1.db ≡ w'.db)
handle_twice env env' decoder handler raw parcel w w' r p h works p' same =
    let k = handle-IsRecorded env decoder handler raw parcel w r p h in
    let (first, left) =
      handle-repeated env' decoder handler raw parcel w' k.message works p' (rw same k.found) in
    (rw k.same_payload at first, left)
