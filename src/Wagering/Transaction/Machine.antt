-- ===== src/Wagering/Transaction/Machine.antt =====
-- internal/domain/wagering/transaction.go: the methods that move a transaction through its states. A
-- method that mutates `*Transaction` returns the new one; on an error the receiver is unchanged. The
-- empty failure code is `none`.
use jungle_gaming.Prelude.{Bool, true, false, ◌||◌, not, Option, none, some}
use jungle_gaming.Prelude.Int.{ℤ, pos, ltb_ℤ}
use jungle_gaming.Shared.{Result, ok, ◌>>=◌, ◌>>◌, fail_if, Uuid, id_validate, Time, time_is_zero}
use jungle_gaming.Money.{validate}
use jungle_gaming.Wagering.Kind.{is_reversal, err_reference_not_allowed}
use jungle_gaming.Wagering.Status.{
  Status, pending_reference, processed, rejected, failed, status_eq, is_terminal, can_transition_to,
  err_illegal_transition,
}
use jungle_gaming.Wagering.Failure.{FailureCode}
use jungle_gaming.Wagering.Transaction.{
  Transaction, FinancialResult, OpeningParams, new_opening, err_missing_field,
  err_invalid_transaction_state,
}

unfoldable pub transition : Transaction → Status → Time → Result Transaction
transition t target now = do
  fail_if (time_is_zero now) err_missing_field
  fail_if (not (can_transition_to t.status target)) err_illegal_transition
  ok (record t { status = target; updated_at = now })

unfoldable pub mark_processed : Transaction → FinancialResult → Time → Result Transaction
unfolding transition validate
mark_processed t result now = do
  validate result.balance
  fail_if (ltb_ℤ result.wallet_version (pos 1)) err_invalid_transaction_state
  t' ← transition t processed now
  ok (record t' { result = some result; next_retry_at = none })

unfoldable pub mark_pending_reference : Transaction → Time → Result Transaction
unfolding transition
mark_pending_reference t now = do
  fail_if (not (is_reversal t.kind)) err_illegal_transition
  t' ← transition t pending_reference now
  ok (record t' { next_retry_at = some now; attempt_count = pos 0 })

unfoldable pub schedule_reference_retry : Transaction → ℤ → Time → Time → Result Transaction
schedule_reference_retry t attempts next_attempt_at now = do
  fail_if (not (status_eq t.status pending_reference)) err_illegal_transition
  fail_if (ltb_ℤ attempts (pos 0)) err_invalid_transaction_state
  fail_if (time_is_zero next_attempt_at || time_is_zero now) err_missing_field
  ok (record t { attempt_count = attempts; next_retry_at = some next_attempt_at; updated_at = now })

abbrev pub is_missing : Option FailureCode → Bool
is_missing none = true
is_missing (some code) = false

unfoldable pub reject : Transaction → Option FailureCode → Time → Result Transaction
unfolding transition
reject t code now = do
  fail_if (is_missing code) err_missing_field
  t' ← transition t rejected now
  ok (record t' { failure_code = code; next_retry_at = none })

unfoldable pub fail : Transaction → Option FailureCode → Time → Result Transaction
unfolding transition
fail t code now = do
  fail_if (is_missing code) err_missing_field
  t' ← transition t failed now
  ok (record t' { failure_code = code; next_retry_at = none })

unfoldable pub resolve_reference : Transaction → Uuid → Time → Result Transaction
unfolding id_validate
resolve_reference t reference_id now = do
  fail_if (not (is_reversal t.kind)) err_reference_not_allowed
  id_validate reference_id
  fail_if (is_terminal t.status) err_illegal_transition
  fail_if (time_is_zero now) err_missing_field
  ok (record t { reference_id = some reference_id; updated_at = now })

unfoldable pub new_processed_opening : OpeningParams → FinancialResult → Result Transaction
unfolding new_opening mark_processed
new_processed_opening p result = do
  opening ← new_opening p
  mark_processed opening result p.created_at
