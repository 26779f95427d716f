-- ===== src/Messaging/Consumer/Accounted.antt =====
-- What has become of a message that the consumer has removed from the queue.
use jungle_gaming.Prelude.{◌≡◌, ◌⊎◌, List, [], ◌∷◌}
use jungle_gaming.Prelude.Bytes.{Bytes}
use jungle_gaming.Shared.{ok}
use jungle_gaming.Repository.Tables.{Db}
use jungle_gaming.UseCase.Monad.{Env}
use jungle_gaming.UseCase.Inbox.Envelope.{Decoder, Handler, Parcel, parse_envelope}
use jungle_gaming.UseCase.Inbox.Recorded.{IsRecorded}
use jungle_gaming.Messaging.Consumer.{Message, DeadMessage, Sqs, Inlet, without, dead_message}

-- The inbox has the message of the body.
abbrev pub IsHandled : Env → Decoder → Handler → Bytes → Db → Type 0
IsHandled env decoder handler body db =
    (parcel : Parcel) × (parse_envelope env decoder handler body ≡ ok parcel)
    × IsRecorded handler parcel db

-- The dead letter queue has the message.
abbrev pub IsDead : Message → List DeadMessage → Type 0
IsDead m [] = ⊥
IsDead m (d ∷ rest) = (d ≡ dead_message m) ⊎ IsDead m rest

abbrev pub IsAccounted : Env → Decoder → Handler → Message → Db → List DeadMessage → Type 0
IsAccounted env decoder handler m db dead = IsHandled env decoder handler m.body db ⊎ IsDead m dead

module _ (env : Env) (sqs : Sqs) (decoder : Decoder) (handler : Handler) (m : Message) where
  -- The queue is as it was, or the message is gone from it and accounted for.
  abbrev Disposed : List Message → Inlet → Type 0
  Disposed queue inlet =
      (inlet.queue ≡ queue)
      ⊎ ((inlet.queue ≡ without m.receipt queue)
          × IsAccounted env decoder handler m inlet.world.db inlet.dead)
