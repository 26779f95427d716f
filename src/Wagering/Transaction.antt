-- ===== src/Wagering/Transaction.antt =====
-- internal/domain/wagering/transaction.go: the registered operation and its constructors. The methods
-- of the state machine are in Machine and the reconstruction from the store in Rehydrate.
pub mod Machine
pub mod Rehydrate
pub mod Lifecycle
pub mod Stored
use jungle_gaming.Prelude.{
  ℕ, Bool, true, false, ◌||◌, not, if◌then◌else◌, Option, none, some, List, [], ◌∷◌,
}
use jungle_gaming.Prelude.Bytes.{Bytes, is_empty}
use jungle_gaming.Prelude.Int.{ℤ, pos}
use jungle_gaming.Shared.{
  Error, Result, ok, err, domain, validation, invariant, missing_field, invalid_transaction_state,
  ◌>>=◌, ◌>>◌, fail_if, Uuid, id_validate, Time, time_is_zero,
}
use jungle_gaming.Money.{Money, validate, is_positive}
use jungle_gaming.Wagering.Kind.{
  Kind, opening, kind_text, parse_external_kind, validate_amount, validate_reference,
  err_invalid_amount_for_kind,
}
use jungle_gaming.Wagering.Status.{Status, pending}
use jungle_gaming.Wagering.Failure.{FailureCode}

abbrev pub err_missing_field : Error
err_missing_field = domain validation missing_field

abbrev pub err_invalid_transaction_state : Error
err_invalid_transaction_state = domain invariant invalid_transaction_state

-- `unsupported` stands for every text that is neither of the two constants.
pub data Origin : Type 0 where
  internal external unsupported : Origin

-- wagering.Result
pub record FinancialResult : Type 0 where
  pub balance : Money
  pub wallet_version : ℤ

pub record Transaction : Type 0 where
  pub id : Uuid
  pub origin : Origin
  pub kind : Kind
  pub wallet_id : Uuid
  pub player_id : Uuid
  pub amount : Money
  pub status : Status
  pub provider_id : Bytes
  pub external_id : Bytes
  pub idempotency_key : Bytes
  pub payload_hash : Bytes
  pub round_id : Bytes
  pub game_id : Bytes
  pub reference_external_id : Bytes
  pub reference_id : Option Uuid
  pub failure_code : Option FailureCode
  pub result : Option FinancialResult
  pub attempt_count : ℤ
  pub next_retry_at : Option Time
  pub created_at : Time
  pub updated_at : Time

pub record ExternalParams : Type 0 where
  pub id : Uuid
  pub kind : Kind
  pub wallet_id : Uuid
  pub player_id : Uuid
  pub amount : Money
  pub provider_id : Bytes
  pub external_id : Bytes
  pub idempotency_key : Bytes
  pub payload_hash : Bytes
  pub round_id : Bytes
  pub game_id : Bytes
  pub reference_external_id : Bytes
  pub created_at : Time

-- The loop over the map of required fields: one empty value is an error, in any order.
abbrev pub any_empty : List Bytes → Bool
any_empty [] = false
any_empty (value ∷ rest) = is_empty value || any_empty rest

abbrev pub required_fields : ExternalParams → List Bytes
required_fields p =
    p.provider_id ∷ p.external_id ∷ p.idempotency_key ∷ p.payload_hash ∷ p.round_id ∷ p.game_id ∷ []

unfoldable pub new_external : ExternalParams → Result Transaction
unfolding id_validate
new_external p = do
  id_validate p.id
  id_validate p.wallet_id
  id_validate p.player_id
  parse_external_kind (kind_text p.kind)
  validate_amount p.kind p.amount
  validate_reference p.kind p.reference_external_id
  fail_if (any_empty (required_fields p)) err_missing_field
  fail_if (time_is_zero p.created_at) err_missing_field
  ok (record {
    id = p.id;
    origin = external;
    kind = p.kind;
    wallet_id = p.wallet_id;
    player_id = p.player_id;
    amount = p.amount;
    status = pending;
    provider_id = p.provider_id;
    external_id = p.external_id;
    idempotency_key = p.idempotency_key;
    payload_hash = p.payload_hash;
    round_id = p.round_id;
    game_id = p.game_id;
    reference_external_id = p.reference_external_id;
    reference_id = none;
    failure_code = none;
    result = none;
    attempt_count = pos 0;
    next_retry_at = none;
    created_at = p.created_at;
    updated_at = p.created_at;
  })

pub record OpeningParams : Type 0 where
  pub id : Uuid
  pub wallet_id : Uuid
  pub player_id : Uuid
  pub amount : Money
  pub created_at : Time

unfoldable pub new_opening : OpeningParams → Result Transaction
unfolding id_validate validate
new_opening p = do
  id_validate p.id
  id_validate p.wallet_id
  id_validate p.player_id
  validate p.amount
  fail_if (not (is_positive p.amount)) err_invalid_amount_for_kind
  fail_if (time_is_zero p.created_at) err_missing_field
  ok (record {
    id = p.id;
    origin = internal;
    kind = opening;
    wallet_id = p.wallet_id;
    player_id = p.player_id;
    amount = p.amount;
    status = pending;
    provider_id = [];
    external_id = [];
    idempotency_key = [];
    payload_hash = [];
    round_id = [];
    game_id = [];
    reference_external_id = [];
    reference_id = none;
    failure_code = none;
    result = none;
    attempt_count = pos 0;
    next_retry_at = none;
    created_at = p.created_at;
    updated_at = p.created_at;
  })
