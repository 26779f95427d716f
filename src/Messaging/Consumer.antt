-- ===== src/Messaging/Consumer.antt =====
-- internal/platform/awssqs/consumer.go: handleOne, moveToDLQ and isPoison. The queue is the list of its
-- messages; a successful DeleteMessage removes the message of its receipt, and a successful SendMessage
-- puts the body in the dead letter queue. The loop, its timeouts, the metrics and the log are left out.
pub mod Accounted
mod Examples
use jungle_gaming.Prelude.{
  ℕ, suc, ◌==◌, Bool, true, false, ◌||◌, not, if◌then◌else◌, Option, none, some, List, [], ◌∷◌,
  ◌++◌,
}
use jungle_gaming.Prelude.Bytes.{Bytes, codes, is_empty}
use jungle_gaming.Shared.{
  Error, Result, ok, err, errors_is, invalid_envelope, unauthorized_provider,
  inbox_payload_mismatch,
}
use jungle_gaming.UseCase.Monad.{Env, World, next_call}
use jungle_gaming.UseCase.Results.{TransactionResult}
use jungle_gaming.UseCase.Inbox.{handle}
use jungle_gaming.UseCase.Inbox.Envelope.{Decoder, Handler}

-- types.Message, with its two attributes; an attribute that is missing is empty.
pub record Message : Type 0 where
  pub body : Bytes
  pub receipt : ℕ
  pub message_id : Bytes
  pub group_id : Bytes
  pub deduplication_id : Bytes

pub record DeadMessage : Type 0 where
  pub dead_body : Bytes
  pub dead_group_id : Bytes
  pub dead_deduplication_id : Bytes

-- The failure of a call of SQS, by the number of the call.
pub record Sqs : Type 0 where
  pub delete_fails : ℕ → Option ℕ
  pub send_fails : ℕ → Option ℕ

pub record Inlet : Type 0 where
  pub world : World
  pub queue : List Message
  pub dead : List DeadMessage

abbrev pub without : ℕ → List Message → List Message
without receipt [] = []
without receipt (m ∷ rest) =
    let kept = without receipt rest in if m.receipt == receipt then kept else m ∷ kept

unfoldable pub is_poison : Error → Bool
is_poison e =
    errors_is e invalid_envelope
    || errors_is e unauthorized_provider
    || errors_is e inbox_payload_mismatch

abbrev pub or_text : Bytes → Bytes → Bytes
or_text s fallback = if is_empty s then fallback else s

-- The arguments of the SendMessage of moveToDLQ.
unfoldable pub dead_message : Message → DeadMessage
dead_message m = record {
  dead_body = m.body;
  dead_group_id = or_text m.group_id (codes "poison");
  dead_deduplication_id = or_text m.deduplication_id (m.message_id ++ codes "-dlq");
}

module _ (env : Env) (sqs : Sqs) where
  deleted_as : Option ℕ → Message → Inlet → Inlet
  deleted_as (some n) m inlet = record inlet { world = next_call inlet.world }
  deleted_as none m inlet = record inlet {
    world = next_call inlet.world;
    queue = without m.receipt inlet.queue;
  }

  -- delete; its failure is only logged.
  unfoldable pub delete : Message → Inlet → Inlet
  unfolding deleted_as
  delete m inlet = deleted_as (sqs.delete_fails inlet.world.calls) m inlet

  moved_as : Option ℕ → Message → Inlet → Inlet
  unfolding delete
  moved_as (some n) m inlet = record inlet { world = next_call inlet.world }
  moved_as none m inlet =
      delete m (record inlet { world = next_call inlet.world; dead = dead_message m ∷ inlet.dead })

  unfoldable pub move_to_dlq : Message → Inlet → Inlet
  unfolding moved_as
  move_to_dlq m inlet = moved_as (sqs.send_fails inlet.world.calls) m inlet

  -- What handleOne does with the outcome of the handler.
  unfoldable pub dispose : Message → Result TransactionResult → Inlet → Inlet
  unfolding delete move_to_dlq
  dispose m (ok r) inlet = delete m inlet
  dispose m (err e) inlet = if is_poison e then move_to_dlq m inlet else inlet

  unfoldable pub handle_one : Decoder → Handler → Message → Inlet → Inlet
  unfolding dispose
  handle_one decoder handler m inlet =
      let (r, w) = handle env handler decoder m.body inlet.world in
      dispose m r (record inlet { world = w })
