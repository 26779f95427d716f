-- ===== src/UseCase/Results.antt =====
-- Commands, results, errors and the payload hash: usecase/errors.go, idempotency.go and the types of
-- process_transaction.go and open_wallet.go.
use jungle_gaming.Prelude.{Bool, false, Option, none, List, [], ◌∷◌}
use jungle_gaming.Prelude.Bytes.{Bytes, codes}
use jungle_gaming.Prelude.Int.{pos}
use jungle_gaming.Shared.{
  Error, domain, validation, conflict, invalid_input, idempotency_key_conflict,
  operation_already_applied, wallet_already_exists, Uuid,
}
use jungle_gaming.Money.{Money}
use jungle_gaming.Wagering.Kind.{Kind}
use jungle_gaming.Wagering.Status.{Status}
use jungle_gaming.Wagering.Failure.{FailureCode}

abbrev pub err_invalid_input : Error
err_invalid_input = domain validation invalid_input

abbrev pub err_idempotency_conflict : Error
err_idempotency_conflict = domain conflict idempotency_key_conflict

abbrev pub err_operation_reapplied : Error
err_operation_reapplied = domain conflict operation_already_applied

abbrev pub err_wallet_already_exists : Error
err_wallet_already_exists = domain conflict wallet_already_exists

pub record MoneyInput : Type 0 where
  pub amount : Bytes
  pub currency : Bytes

-- ProcessTransactionCommand
pub record Command : Type 0 where
  pub idempotency_key : Bytes
  pub provider_id : Bytes
  pub external_transaction_id : Bytes
  pub player_id : Bytes
  pub wallet_id : Bytes
  pub round_id : Bytes
  pub game_id : Bytes
  pub kind : Bytes
  pub money : MoneyInput
  pub reference_external_transaction_id : Bytes

-- The empty status of Go's zero value is `none`.
pub record TransactionResult : Type 0 where
  pub transaction_id : Uuid
  pub status : Option Status
  pub balance : Money
  pub has_balance : Bool
  pub failure_code : Option FailureCode
  pub idempotent_replay : Bool

-- The command after its validation.
pub record Request : Type 0 where
  pub command : Command
  pub hash : Bytes
  pub kind : Kind
  pub wallet_id : Uuid
  pub player_id : Uuid
  pub amount : Money

abbrev pub no_money : Money
no_money = record { minor = pos 0; currency = [] }

-- TransactionResult{}
abbrev pub no_result : TransactionResult
no_result = record {
  transaction_id = 0;
  status = none;
  balance = no_money;
  has_balance = false;
  failure_code = none;
  idempotent_replay = false;
}

-- The members of payloadHash, in the order of their names that encoding/json gives to a map.
unfoldable pub hashed_fields : Command → List (Bytes × Bytes)
hashed_fields c =
    (codes "amount", c.money.amount)
    ∷ (codes "currency", c.money.currency)
    ∷ (codes "externalTransactionId", c.external_transaction_id)
    ∷ (codes "gameId", c.game_id)
    ∷ (codes "kind", c.kind)
    ∷ (codes "playerId", c.player_id)
    ∷ (codes "providerId", c.provider_id)
    ∷ (codes "referenceExternalTransactionId", c.reference_external_transaction_id)
    ∷ (codes "roundId", c.round_id)
    ∷ (codes "walletId", c.wallet_id)
    ∷ []

-- The digest is that of crypto/sha256 over encoding/json.
unfoldable pub payload_hash : (List (Bytes × Bytes) → Bytes) → Command → Bytes
unfolding hashed_fields
payload_hash digest c = digest (hashed_fields c)
