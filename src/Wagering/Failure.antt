-- ===== src/Wagering/Failure.antt =====
-- internal/domain/wagering/failure.go. The constants that the program declares; a transaction with no
-- failure has none, which the source writes as the empty text.

pub data FailureCode : Type 0 where
  insufficient_funds reversal_exceeds_balance reference_not_found reference_not_processed :
      FailureCode
  duplicate_reversal reference_mismatch invalid_amount currency_mismatch : FailureCode
  wallet_player_mismatch opening_not_allowed infrastructure_failure : FailureCode
