-- ===== src/Http/Transactions.antt =====
-- internal/platform/httpserver/wagering_handler.go and dto.go: Create, GetByID and GetByExternalID, with
-- internal/platform/auth/identity.go. A route gets the identity that the middleware found, if any; the
-- decoder of the body is a parameter. The metrics and the log are left out.
use jungle_gaming.Prelude.{
  ℕ, Bool, true, false, ◌&&◌, ◌||◌, not, if◌then◌else◌, Option, none, some, [],
}
use jungle_gaming.Prelude.Bytes.{Bytes, bytes_eq, is_empty}
use jungle_gaming.Shared.{
  Result, ok, err, domain, caused, validation, invalid_input, invalid_json, missing_idempotency_key,
  invalid_transaction_id, Uuid, parse_id,
}
use jungle_gaming.Money.{Money}
use jungle_gaming.Wagering.Kind.{kind_text}
use jungle_gaming.Wagering.Status.{Status, pending, pending_reference, processed, rejected, failed}
use jungle_gaming.Wagering.Failure.{FailureCode}
use jungle_gaming.Wagering.Transaction.{
  Transaction, FinancialResult, Origin, internal, external, unsupported,
}
use jungle_gaming.Repository.Transactions
use jungle_gaming.UseCase.Monad.{Env, World, statement, execute_read_only}
use jungle_gaming.UseCase.Results.{Command, MoneyInput, TransactionResult}
use jungle_gaming.UseCase.Process.{process}
use jungle_gaming.Http.Errors.{
  RouteError, unauthenticated, forbidden, failed_with, ErrorBody, map_error,
}

pub data Role : Type 0 where
  provider_role internal_role other_role : Role

pub record Identity : Type 0 where
  pub subject : Bytes
  pub role : Role
  pub provider_id : Bytes
  pub client_id : Bytes

-- processTransactionRequest
pub record ProcessRequest : Type 0 where
  pub provider_id : Bytes
  pub external_transaction_id : Bytes
  pub player_id : Bytes
  pub wallet_id : Bytes
  pub round_id : Bytes
  pub game_id : Bytes
  pub kind : Bytes
  pub money : MoneyInput
  pub reference_external_transaction_id : Bytes

-- transactionResponse; an empty text that is omitted is the empty text.
pub record TransactionResponse : Type 0 where
  pub transaction_id : Uuid
  pub status : Option Status
  pub kind : Bytes
  pub provider_id : Bytes
  pub external_transaction_id : Bytes
  pub player_id : Option Uuid
  pub wallet_id : Option Uuid
  pub round_id : Bytes
  pub game_id : Bytes
  pub reference_external_transaction_id : Bytes
  pub money : Option Money
  pub balance : Option Money
  pub failure_code : Option FailureCode
  pub idempotent_replay : Bool

pub data Body : Type 0 where
  failure : ErrorBody → Body
  transaction : TransactionResponse → Body

pub record Response : Type 0 where
  pub code : ℕ
  pub body : Body

-- writeError
abbrev pub refuse : RouteError → Response
refuse e = record { code = (map_error e).status; body = failure (map_error e).body }

abbrev pub balance_field : Bool → Money → Option Money
balance_field true m = some m
balance_field false m = none

unfoldable pub map_transaction_result : TransactionResult → TransactionResponse
map_transaction_result r = record {
  transaction_id = r.transaction_id;
  status = r.status;
  kind = [];
  provider_id = [];
  external_transaction_id = [];
  player_id = none;
  wallet_id = none;
  round_id = [];
  game_id = [];
  reference_external_transaction_id = [];
  money = none;
  balance = balance_field r.has_balance r.balance;
  failure_code = r.failure_code;
  idempotent_replay = r.idempotent_replay;
}

abbrev pub result_balance : Option FinancialResult → Option Money
result_balance none = none
result_balance (some r) = some r.balance

unfoldable pub map_transaction : Transaction → TransactionResponse
map_transaction t = record {
  transaction_id = t.id;
  status = some t.status;
  kind = kind_text t.kind;
  provider_id = t.provider_id;
  external_transaction_id = t.external_id;
  player_id = some t.player_id;
  wallet_id = some t.wallet_id;
  round_id = t.round_id;
  game_id = t.game_id;
  reference_external_transaction_id = t.reference_external_id;
  money = some t.amount;
  balance = result_balance t.result;
  failure_code = t.failure_code;
  idempotent_replay = false;
}

unfoldable pub status_for_transaction : Option Status → ℕ
status_for_transaction (some pending_reference) = 202
status_for_transaction (some rejected) = 422
status_for_transaction (some failed) = 503
status_for_transaction (some pending) = 200
status_for_transaction (some processed) = 200
status_for_transaction none = 200

abbrev pub is_external : Origin → Bool
is_external external = true
is_external internal = false
is_external unsupported = false

-- authorizeTransactionRead: whether the identity may read the transaction.
unfoldable pub may_read : Role → Bytes → Transaction → Bool
may_read internal_role provider t = true
may_read provider_role provider t = is_external t.origin && bytes_eq t.provider_id provider
may_read other_role provider t = false

-- authorizeProviderPath
unfoldable pub may_read_path : Role → Bytes → Bytes → Bool
may_read_path internal_role provider path = true
may_read_path provider_role provider path = bytes_eq provider path
may_read_path other_role provider path = false

abbrev pub command_from : Bytes → ProcessRequest → Command
command_from key body = record {
  idempotency_key = key;
  provider_id = body.provider_id;
  external_transaction_id = body.external_transaction_id;
  player_id = body.player_id;
  wallet_id = body.wallet_id;
  round_id = body.round_id;
  game_id = body.game_id;
  kind = body.kind;
  money = body.money;
  reference_external_transaction_id = body.reference_external_transaction_id;
}

module _ (env : Env) where
  abbrev answer_result : Result TransactionResult → Response
  answer_result (ok r) = record {
    code = status_for_transaction r.status;
    body = transaction (map_transaction_result r);
  }
  answer_result (err e) = refuse (failed_with e)

  unfoldable pub run_command : Command → World → Response × World
  run_command command w = let (r, w') = process env command w in (answer_result r, w')

  unfoldable pub create_decoded :
      Identity → Bytes → Result ProcessRequest → World → Response × World
  unfolding run_command
  create_decoded identity key (err e) w =
      (refuse (failed_with (caused validation invalid_json e)), w)
  create_decoded identity key (ok body) w =
      if not (bytes_eq body.provider_id identity.provider_id)
      then (refuse forbidden, w)
      else run_command (command_from key body) w

  -- Create; the body is what the decoder makes of the bytes.
  unfoldable pub create : Option Identity → Bytes → Result ProcessRequest → World → Response × World
  unfolding create_decoded
  create none key body w = (refuse unauthenticated, w)
  create (some identity) key body w =
      if is_empty key
      then (refuse (failed_with (domain validation missing_idempotency_key)), w)
      else create_decoded identity key body w

  unfoldable pub answer_read : Identity → Result Transaction → Response
  answer_read identity (err e) = refuse (failed_with e)
  answer_read identity (ok t) =
      if not (may_read identity.role identity.provider_id t)
      then refuse forbidden
      else record { code = 200; body = transaction (map_transaction t) }

  unfoldable pub read_parsed : Identity → Result Uuid → World → Response × World
  unfolding answer_read
  read_parsed identity (err e) w =
      (refuse (failed_with (caused validation invalid_transaction_id e)), w)
  read_parsed identity (ok id) w =
      let (r, w') = execute_read_only env (statement env (Transactions.find_by_id id)) w in
      (answer_read identity r, w')

  -- GetByID
  unfoldable pub get_by_id : Option Identity → Bytes → World → Response × World
  unfolding read_parsed
  get_by_id none raw w = (refuse unauthenticated, w)
  get_by_id (some identity) raw w = read_parsed identity (parse_id env.uuid_parse raw) w

  unfoldable pub answer_found : Result Transaction → Response
  answer_found (err e) = refuse (failed_with e)
  answer_found (ok t) = record { code = 200; body = transaction (map_transaction t) }

  unfoldable pub read_path : Bytes → Bytes → World → Response × World
  unfolding answer_found
  read_path provider external_id w =
      let (r, w') =
        execute_read_only env
          (statement env (Transactions.find_by_external_id provider external_id)) w in
      (answer_found r, w')

  -- GetByExternalID
  unfoldable pub get_by_external_id : Option Identity → Bytes → Bytes → World → Response × World
  unfolding read_path
  get_by_external_id none provider external_id w = (refuse unauthenticated, w)
  get_by_external_id (some identity) provider external_id w =
      if is_empty provider || is_empty external_id
      then (refuse (failed_with (domain validation invalid_input)), w)
      else if not (may_read_path identity.role identity.provider_id provider)
      then (refuse forbidden, w)
      else read_path provider external_id w
