-- ===== src/UseCase/Pending/Claimed.antt =====
-- The amounts of the operations that ClaimPendingReferences of repository/transaction.go reserves.
use jungle_gaming.Prelude.{true, ℕ, ◌≡◌, arith, List, [], ◌∷◌, All}
use jungle_gaming.Prelude.Int64.{IsInt64}
use jungle_gaming.Shared.{ok, Time, >>=-eq-ok}
use jungle_gaming.Wagering.Transaction.{Transaction}
use jungle_gaming.Repository.Scanned.{to_domain-IsScanned}
use jungle_gaming.Repository.Rows.{TransactionRow, to_domain}
use jungle_gaming.Repository.Pending.{pending_rows, scan_rows, is_eligible, retry_instant, row_name}
use jungle_gaming.Repository.Selection.{select-All, limit-All}
use jungle_gaming.Repository.Ordered.{limit_rows}
use jungle_gaming.UseCase.Pending.Amounts.{FitsColumn}

abbrev pub HasAmount : Transaction → Type 0
HasAmount t = IsInt64 t.amount.minor

-- The amount of a transaction that is read is the amount of its row.
scan_amount :
    (row : TransactionRow) (t : Transaction)
    → to_domain row ≡ ok t
    → t.amount.minor ≡ row.amount_minor
scan_amount row t e = (to_domain-IsScanned row t e).amount

pub scanned_fit :
    (rows : List TransactionRow) (ts : List Transaction)
    → All FitsColumn rows
    → scan_rows rows ≡ ok ts
    → All HasAmount ts
unfolding scan_rows
scanned_fit [] [] h e = tt
scanned_fit [] (t ∷ ts) h e = cc
scanned_fit (row ∷ rows) ts (i, h) e =
    let (t, e1, e2) = >>=-eq-ok (to_domain row) _ e in
    let (rest, e3, e4) = >>=-eq-ok (scan_rows rows) _ e2 in
    let same : (t ∷ rest) ≡ ts = ground arith in
    rw (← same) (rw (scan_amount row t e1) i, scanned_fit rows rest h e3)

eligible_fit :
    (now : Time) (rows : List TransactionRow)
    → All FitsColumn rows
    → All (λ row. is_eligible now row ≡ true → FitsColumn row) rows
eligible_fit now [] h = tt
eligible_fit now (row ∷ rows) (i, h) = (λ e. i, eligible_fit now rows h)

pub pending_fit :
    (n : ℕ) (now : Time) (rows : List TransactionRow)
    → All FitsColumn rows
    → All FitsColumn (limit_rows n (pending_rows now rows))
unfolding pending_rows
pending_fit n now rows h =
    limit-All FitsColumn n _ (
      select-All retry_instant row_name (is_eligible now) FitsColumn rows (eligible_fit now rows h))
