-- ===== src/Wagering/Transaction/Rehydrate.antt =====
-- internal/domain/wagering/transaction.go: State, the persisted snapshot, and Rehydrate. cloneTime copies a
-- pointer to an instant and keeps the instant.
use jungle_gaming.Prelude.{Bool, false, Option, ◌&&◌, ◌||◌, not}
use jungle_gaming.Prelude.Bytes.{Bytes, is_empty}
use jungle_gaming.Prelude.Int.{ℤ}
use jungle_gaming.Shared.{Result, ok, ◌>>◌, fail_if, Uuid, id_validate, Time, time_is_zero}
use jungle_gaming.Money.{Money, validate}
use jungle_gaming.Wagering.Kind.{Kind, is_opening, kind_text, parse_kind}
use jungle_gaming.Wagering.Status.{Status, status_text, parse_status}
use jungle_gaming.Wagering.Failure.{FailureCode}
use jungle_gaming.Wagering.Transaction.{
  Origin, internal, external, unsupported, Transaction, FinancialResult,
  err_invalid_transaction_state,
}

pub record State : Type 0 where
  pub id : Uuid
  pub origin : Origin
  pub kind : Kind
  pub wallet_id : Uuid
  pub player_id : Uuid
  pub amount : Money
  pub status : Status
  pub provider_id : Bytes
  pub external_id : Bytes
  pub idempotency_key : Bytes
  pub payload_hash : Bytes
  pub round_id : Bytes
  pub game_id : Bytes
  pub reference_external_id : Bytes
  pub reference_id : Option Uuid
  pub failure_code : Option FailureCode
  pub result : Option FinancialResult
  pub attempt_count : ℤ
  pub next_retry_at : Option Time
  pub created_at : Time
  pub updated_at : Time

-- The switch of requireOriginConsistency.
abbrev pub is_consistent : Origin → State → Bool
is_consistent internal s =
    is_opening s.kind
    && (is_empty s.provider_id
        && is_empty s.external_id
        && is_empty s.idempotency_key
        && is_empty s.payload_hash
        && is_empty s.round_id
        && is_empty s.game_id
        && is_empty s.reference_external_id)
is_consistent external s =
    not (is_opening s.kind)
    && not (
        is_empty s.provider_id
        || is_empty s.external_id
        || is_empty s.idempotency_key
        || is_empty s.payload_hash)
is_consistent unsupported s = false

-- Every failure of requireOriginConsistency is the same error.
unfoldable pub require_origin_consistency : State → Result (Unit {0})
require_origin_consistency s =
    fail_if (not (is_consistent s.origin s)) err_invalid_transaction_state

unfoldable pub rehydrate : State → Result Transaction
unfolding id_validate validate require_origin_consistency
rehydrate s = do
  id_validate s.id
  id_validate s.wallet_id
  id_validate s.player_id
  parse_kind (kind_text s.kind)
  parse_status (status_text s.status)
  validate s.amount
  require_origin_consistency s
  fail_if (time_is_zero s.created_at || time_is_zero s.updated_at) err_invalid_transaction_state
  ok (record {
    id = s.id;
    origin = s.origin;
    kind = s.kind;
    wallet_id = s.wallet_id;
    player_id = s.player_id;
    amount = s.amount;
    status = s.status;
    provider_id = s.provider_id;
    external_id = s.external_id;
    idempotency_key = s.idempotency_key;
    payload_hash = s.payload_hash;
    round_id = s.round_id;
    game_id = s.game_id;
    reference_external_id = s.reference_external_id;
    reference_id = s.reference_id;
    failure_code = s.failure_code;
    result = s.result;
    attempt_count = s.attempt_count;
    next_retry_at = s.next_retry_at;
    created_at = s.created_at;
    updated_at = s.updated_at;
  })
