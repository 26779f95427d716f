-- ===== src/Messaging/Consumer/Examples.antt =====
-- A message in the queue, and the theorem at it.
use jungle_gaming.Prelude.{none, [], ◌∷◌}
use jungle_gaming.Prelude.Bytes.{codes}
use jungle_gaming.UseCase.Examples.{env, opened_world}
use jungle_gaming.UseCase.Inbox.Examples.{decoder, handler, raw}
use jungle_gaming.Messaging.Consumer.{Message, Sqs, Inlet, handle_one}

abbrev message : Message
message = record {
  body = raw;
  receipt = 5;
  message_id = codes "s1";
  group_id = [];
  deduplication_id = [];
}

abbrev sqs : Sqs
sqs = record { delete_fails = λ n. none; send_fails = λ n. none }

abbrev inlet : Inlet
inlet = record { world = opened_world; queue = message ∷ []; dead = [] }

abbrev after : Inlet
after = handle_one env sqs decoder handler message inlet
