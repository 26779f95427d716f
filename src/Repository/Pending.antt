-- ===== src/Repository/Pending.antt =====
-- ClaimPendingReferences of repository/transaction.go. FOR UPDATE SKIP LOCKED passes over the rows that
-- another transaction holds; there is none here.
use jungle_gaming.Prelude.{ℕ, ◌/◌, Bool, false, leb, ◌&&◌, Option, none, some, List, [], ◌∷◌}
use jungle_gaming.Prelude.Bytes.{codes}
use jungle_gaming.Shared.{Result, ok, Uuid, ◌>>=◌, Time, Uuid}
use jungle_gaming.Wagering.Transaction.{Transaction}
use jungle_gaming.Repository.Rows.{TransactionRow, to_domain}
use jungle_gaming.Repository.Tables.{Statement}
use jungle_gaming.Repository.Ordered.{select_rows, limit_rows}
use jungle_gaming.Repository.Transactions.{has_status}

-- A TIMESTAMPTZ, the column and the parameter alike, has an instant in microseconds.
abbrev pub micros : Time → ℕ
micros t = t / 1000

-- next_retry_at IS NOT NULL AND next_retry_at <= $1
abbrev pub due_by : Time → Option Time → Bool
due_by now none = false
due_by now (some at) = leb (micros at) (micros now)

unfoldable pub is_eligible : Time → TransactionRow → Bool
is_eligible now row = has_status row (codes "PENDING_REFERENCE") && due_by now row.next_retry_at

abbrev pub retry_time : Option Time → Time
retry_time none = 0
retry_time (some at) = at

-- ORDER BY next_retry_at, id
abbrev pub retry_instant : TransactionRow → ℕ
retry_instant row = micros (retry_time row.next_retry_at)

abbrev pub row_name : TransactionRow → Uuid
row_name row = row.id

-- The rows that the WHERE and the ORDER BY of the query leave.
unfoldable pub pending_rows : Time → List TransactionRow → List TransactionRow
pending_rows now rows = select_rows retry_instant row_name (is_eligible now) rows

unfoldable pub scan_rows : List TransactionRow → Result (List Transaction)
scan_rows [] = ok []
scan_rows (row ∷ rows) = do t ← to_domain row; rest ← scan_rows rows; ok (t ∷ rest)

unfoldable pub claim_pending_references : ℕ → Time → Statement (List Transaction)
unfolding pending_rows scan_rows
claim_pending_references limit now db =
    (scan_rows (limit_rows limit (pending_rows now db.transactions)), db)
