-- ===== src/UseCase/Process/Parse.antt =====
-- The validation of a command, before any effect.
use jungle_gaming.Prelude.Bytes.{Bytes, is_empty}
use jungle_gaming.Shared.{
  Result, ok, err, caused, validation, invalid_input, ◌>>=◌, ◌>>◌, fail_if, Uuid, UuidParser,
  parse_id,
}
use jungle_gaming.Money.Text
use jungle_gaming.Wagering.Kind.{parse_external_kind, validate_amount, validate_reference}
use jungle_gaming.UseCase.Monad.{Env}
use jungle_gaming.UseCase.Results.{Command, Request, err_invalid_input, payload_hash}

-- An identifier of the command, with the parser's error as the cause.
invalid_id_input : Result Uuid → Result Uuid
invalid_id_input (ok id) = ok id
invalid_id_input (err e) = err (caused validation invalid_input e)

unfoldable pub parse_id_input : UuidParser → Bytes → Result Uuid
unfolding invalid_id_input
parse_id_input uuid_parse raw = invalid_id_input (parse_id uuid_parse raw)

-- (*ProcessWagerTransaction).parse
unfoldable pub parse : Env → Command → Result Request
parse env c = do
  fail_if (is_empty c.idempotency_key) err_invalid_input
  fail_if (is_empty c.provider_id) err_invalid_input
  fail_if (is_empty c.external_transaction_id) err_invalid_input
  kind ← parse_external_kind c.kind
  wallet_id ← parse_id_input env.uuid_parse c.wallet_id
  player_id ← parse_id_input env.uuid_parse c.player_id
  amount ← Text.parse c.money.amount c.money.currency
  validate_amount kind amount
  validate_reference kind c.reference_external_transaction_id
  ok (record {
    command = c;
    hash = payload_hash env.digest c;
    kind = kind;
    wallet_id = wallet_id;
    player_id = player_id;
    amount = amount;
  })
