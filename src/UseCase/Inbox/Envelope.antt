-- ===== src/UseCase/Inbox/Envelope.antt =====
-- parseEnvelope of usecase/handle_message.go: the envelope of a delivery, its data and the policy of the
-- consumer. json.Unmarshal is a parameter.
use jungle_gaming.Prelude.{Bool, true, false, ◌||◌, not, if◌then◌else◌, List, [], ◌∷◌}
use jungle_gaming.Prelude.Bytes.{Bytes, codes, bytes_eq, is_empty}
use jungle_gaming.Shared.{
  Error, Result, ok, err, domain, validation, conflict, invalid_envelope, unauthorized_provider,
  inbox_payload_mismatch, with_cause, fail_if, ◌>>=◌, ◌>>◌, Time,
}
use jungle_gaming.UseCase.Monad.{Env}
use jungle_gaming.UseCase.Results.{Command, MoneyInput, payload_hash}

abbrev pub err_invalid_envelope : Error
err_invalid_envelope = domain validation invalid_envelope

abbrev pub err_unauthorized_provider : Error
err_unauthorized_provider = domain validation unauthorized_provider

abbrev pub err_inbox_payload_mismatch : Error
err_inbox_payload_mismatch = domain conflict inbox_payload_mismatch

abbrev pub wager_requested_type : Bytes
wager_requested_type = codes "WagerTransactionRequested"

-- WagerMessageEnvelope
pub record Envelope : Type 0 where
  pub message_id : Bytes
  pub correlation_id : Bytes
  pub message_type : Bytes
  pub occurred_at : Time
  pub raw_data : Bytes

-- wagerMessageData
pub record MessageData : Type 0 where
  pub provider_id : Bytes
  pub external_transaction_id : Bytes
  pub idempotency_key : Bytes
  pub player_id : Bytes
  pub wallet_id : Bytes
  pub round_id : Bytes
  pub game_id : Bytes
  pub kind : Bytes
  pub money : MoneyInput
  pub reference_external_transaction_id : Bytes

-- json.Unmarshal into the two types.
pub record Decoder : Type 0 where
  pub envelope : Bytes → Result Envelope
  pub message_data : Bytes → Result MessageData

pub record Handler : Type 0 where
  pub consumer_name : Bytes
  pub allowed_providers : List Bytes

abbrev pub set_texts : List Bytes → List Bytes
set_texts [] = []
set_texts (s ∷ rest) = let kept = set_texts rest in if is_empty s then kept else s ∷ kept

-- NewHandleWagerMessage: the keys of the map, without the empty name.
unfoldable pub new_handler : Bytes → List Bytes → Handler
new_handler consumer_name providers = record {
  consumer_name = consumer_name;
  allowed_providers = set_texts providers;
}

abbrev pub is_member : Bytes → List Bytes → Bool
is_member s [] = false
is_member s (x ∷ rest) = if bytes_eq x s then true else is_member s rest

abbrev pub command_of : MessageData → Command
command_of message = record {
  idempotency_key = message.idempotency_key;
  provider_id = message.provider_id;
  external_transaction_id = message.external_transaction_id;
  player_id = message.player_id;
  wallet_id = message.wallet_id;
  round_id = message.round_id;
  game_id = message.game_id;
  kind = message.kind;
  money = message.money;
  reference_external_transaction_id = message.reference_external_transaction_id;
}

-- The failure of the decoder, as the envelope's.
abbrev decoded : {A : Type 0} → Result A → Result A
decoded (ok a) = ok a
decoded (err e) = err (with_cause err_invalid_envelope e)

-- What parseEnvelope returns beside its error.
pub record Parcel : Type 0 where
  pub command : Command
  pub message_id : Bytes
  pub hash : Bytes

module _ (env : Env) (decoder : Decoder) (handler : Handler) where
  unfoldable pub parse_envelope : Bytes → Result Parcel
  parse_envelope raw = do
    envelope ← decoded (decoder.envelope raw)
    fail_if
        (is_empty envelope.message_id
          || not (bytes_eq envelope.message_type wager_requested_type)
          || is_empty envelope.raw_data)
        err_invalid_envelope
    message ← decoded (decoder.message_data envelope.raw_data)
    fail_if (not (is_member message.provider_id handler.allowed_providers))
        err_unauthorized_provider
    ok (record {
      command = command_of message;
      message_id = envelope.message_id;
      hash = payload_hash env.digest (command_of message);
    })
