-- ===== src/Repository/Claiming.antt =====
-- What ClaimPendingReferences of repository/transaction.go reserves.
use jungle_gaming.Prelude.{
  ℕ, zero, suc, ◌/◌, ◌≡◌, ◌≤◌, refl, sym, ap, ◌∙◌, arith, Bool, true, false, leb, ◌&&◌, Option,
  none, some, List, [], ◌∷◌, All, length,
}
use jungle_gaming.Prelude.Bytes.{codes, bytes_eq, eq_of_bytes_eq}
use jungle_gaming.Shared.{ok, >>=-eq-ok, Uuid, Time}
use jungle_gaming.Wagering.Status.{pending_reference, parse_status}
use jungle_gaming.Wagering.Transaction.{Transaction}
use jungle_gaming.Repository.Rows.{TransactionRow, to_domain}
use jungle_gaming.Repository.Tables.{Db, count_rows}
use jungle_gaming.Repository.Ordered.{comes_first, limit_rows}
use jungle_gaming.Repository.Pending.{
  is_eligible, pending_rows, micros, due_by, retry_time, retry_instant, row_name, scan_rows,
  claim_pending_references,
}
use jungle_gaming.Repository.Scanned.{to_domain-IsScanned}
use jungle_gaming.Repository.Selection.{
  IsOrdered, select-All, select-IsOrdered, limit-All, count-select,
}

-- An operation that waits for its reference and whose next attempt is due, to the microsecond.
pub record IsDue (now : Time) (t : Transaction) : Type 0 where
  pub waits : t.status ≡ pending_reference
  pub at : Time
  pub scheduled : t.next_retry_at ≡ some at
  pub due : at / 1000 ≤ now / 1000

abbrev instant_of : Option Time → ℕ
instant_of none = 0
instant_of (some at) = at / 1000

abbrev is_past : Time → Option Time → Bool
is_past now none = false
is_past now (some at) = leb (at / 1000) (now / 1000)

-- The microsecond of the next attempt, and the identifier.
abbrev pub attempt_instant : Transaction → ℕ
attempt_instant t = instant_of t.next_retry_at

abbrev pub transaction_name : Transaction → Uuid
transaction_name t = t.id

-- The rows of operations whose next attempt is due.
abbrev pub is_waiting : Time → TransactionRow → Bool
is_waiting now row =
    bytes_eq row.status (codes "PENDING_REFERENCE") && is_past now row.next_retry_at

abbrev pub fewer : ℕ → ℕ → ℕ
fewer zero n = zero
fewer (suc m) zero = zero
fewer (suc m) (suc n) = suc (fewer m n)

pending_text : parse_status (codes "PENDING_REFERENCE") ≡ ok pending_reference
unfolding parse_status bytes_eq
pending_text = refl

to_domain-IsDue :
    (now : Time) (row : TransactionRow) (t : Transaction) (at : Option Time)
    → row.next_retry_at ≡ at
    → is_eligible now row ≡ true
    → to_domain row ≡ ok t
    → IsDue now t
unfolding is_eligible
to_domain-IsDue now row t none e h r = let x = rw e at h in ground arith
to_domain-IsDue now row t (some at) e h r =
    let scanned = to_domain-IsScanned row t r in
    let x = rw e at h in
    let text = eq_of_bytes_eq row.status (codes "PENDING_REFERENCE") (ground arith) in
    let parsed = rw (text, pending_text) at scanned.status in
    record { waits = ground arith; at = at; scheduled = scanned.retry ∙ e; due = ground arith }

abbrev IsEligible : Time → TransactionRow → Type 0
IsEligible now row = is_eligible now row ≡ true

each :
    (now : Time) (rows : List TransactionRow)
    → All (λ row. is_eligible now row ≡ true → IsEligible now row) rows
each now [] = tt
each now (row ∷ rows) = (λ h. h, each now rows)

scan_rows-IsDue :
    (now : Time) (rows : List TransactionRow) (ts : List Transaction)
    → All (IsEligible now) rows
    → scan_rows rows ≡ ok ts
    → All (IsDue now) ts
unfolding scan_rows
scan_rows-IsDue now [] [] a h = tt
scan_rows-IsDue now [] (t ∷ ts) a h = cc
scan_rows-IsDue now (row ∷ rows) ts (p, a) h =
    let (t, h1, h2) = >>=-eq-ok (to_domain row) _ h in
    let (rest, h3, h4) = >>=-eq-ok (scan_rows rows) _ h2 in
    let made : (t ∷ rest) ≡ ts = ground arith in
    rw⁻¹ made (to_domain-IsDue now row t _ refl p h1, scan_rows-IsDue now rows rest a h3)

same_instant : (at : Option Time) → micros (retry_time at) ≡ instant_of at
same_instant none = refl
same_instant (some at) = refl

-- The rows and the transactions that are read from them have the same order.
keyed :
    (row : TransactionRow) (t : Transaction)
    → to_domain row ≡ ok t
    → (retry_instant row ≡ attempt_instant t) × (row_name row ≡ transaction_name t)
keyed row t r =
    let scanned = to_domain-IsScanned row t r in
    (
      same_instant row.next_retry_at ∙ ap (λ (o : Option Time). instant_of o) (sym scanned.retry),
      sym scanned.name,
    )

precedes :
    (row other : TransactionRow) (t u : Transaction)
    → to_domain row ≡ ok t
    → to_domain other ≡ ok u
    → comes_first retry_instant row_name row other
      ≡ comes_first attempt_instant transaction_name t u
unfolding comes_first
precedes row other t u h g =
    let (i, n) = keyed row t h in let (j, m) = keyed other u g in rw (i, n, j, m) refl

follow :
    (row : TransactionRow) (t : Transaction) (rows : List TransactionRow) (ts : List Transaction)
    → to_domain row ≡ ok t
    → All (λ other. comes_first retry_instant row_name row other ≡ true) rows
    → scan_rows rows ≡ ok ts
    → All (λ u. comes_first attempt_instant transaction_name t u ≡ true) ts
unfolding scan_rows
follow row t [] [] r a h = tt
follow row t [] (u ∷ ts) r a h = cc
follow row t (other ∷ rows) ts r (p, a) h =
    let (u, h1, h2) = >>=-eq-ok (to_domain other) _ h in
    let (rest, h3, h4) = >>=-eq-ok (scan_rows rows) _ h2 in
    let made : (u ∷ rest) ≡ ts = ground arith in
    rw⁻¹ made (sym (precedes row other t u r h1) ∙ p, follow row t rows rest r a h3)

scanned_order :
    (rows : List TransactionRow) (ts : List Transaction)
    → IsOrdered retry_instant row_name rows
    → scan_rows rows ≡ ok ts
    → IsOrdered attempt_instant transaction_name ts
unfolding scan_rows
scanned_order [] [] a h = tt
scanned_order [] (t ∷ ts) a h = cc
scanned_order (row ∷ rows) ts (p, a) h =
    let (t, h1, h2) = >>=-eq-ok (to_domain row) _ h in
    let (rest, h3, h4) = >>=-eq-ok (scan_rows rows) _ h2 in
    let made : (t ∷ rest) ≡ ts = ground arith in
    rw⁻¹ made (follow row t rows rest h1 p h3, scanned_order rows rest a h3)

limit_order :
    (n : ℕ) (rows : List TransactionRow)
    → IsOrdered retry_instant row_name rows
    → IsOrdered retry_instant row_name (limit_rows n rows)
limit_order zero rows a = tt
limit_order (suc n) [] a = tt
limit_order (suc n) (row ∷ rows) (p, a) = (limit-All _ n rows p, limit_order n rows a)

-- How many are read.
scanned_length :
    (n : ℕ) (rows : List TransactionRow) (ts : List Transaction)
    → scan_rows (limit_rows n rows) ≡ ok ts
    → length ts ≡ fewer n (count_rows (λ row. true) rows)
unfolding scan_rows
scanned_length zero rows ts h = let e : ts ≡ [] = ground arith in rw e refl
scanned_length (suc n) [] ts h = let e : ts ≡ [] = ground arith in rw e refl
scanned_length (suc n) (row ∷ rows) ts h =
    let (t, h1, h2) = >>=-eq-ok (to_domain row) _ h in
    let (rest, h3, h4) = >>=-eq-ok (scan_rows (limit_rows n rows)) _ h2 in
    let made : (t ∷ rest) ≡ ts = ground arith in
    rw⁻¹ made (ap (λ (k : ℕ). suc k) (scanned_length n rows rest h3))

same_past : (now : Time) (at : Option Time) → due_by now at ≡ is_past now at
same_past now none = refl
same_past now (some at) = refl

same_test : (now : Time) (row : TransactionRow) → (is_eligible now row && true) ≡ is_waiting now row
unfolding is_eligible
same_test now row = rw (same_past now row.next_retry_at) (ground arith)

same_count :
    (p q : TransactionRow → Bool) (rows : List TransactionRow)
    → ((row : TransactionRow) → p row ≡ q row)
    → count_rows p rows ≡ count_rows q rows
same_count p q [] h = refl
same_count p q (row ∷ rows) h = rw (h row, same_count p q rows h) refl

-- A claim of pending operations that succeeds gets operations that wait for their reference and whose next
-- attempt is due at the instant, to the microsecond; in the order of their attempts and identifiers; and
-- as many as the table has, unless the limit is smaller, and then that many.
pub claim_pending_references_lem :
    (limit : ℕ) (now : Time) (db : Db) (ts : List Transaction)
    → (claim_pending_references limit now db).0 ≡ ok ts
    → All (IsDue now) ts
      × IsOrdered attempt_instant transaction_name ts
      × (length ts ≡ fewer limit (count_rows (is_waiting now) db.transactions))
unfolding claim_pending_references pending_rows
claim_pending_references_lem limit now db ts h =
    let rows = pending_rows now db.transactions in
    (
      scan_rows-IsDue now (limit_rows limit rows) ts
          (limit-All (IsEligible now) limit rows (
            select-All retry_instant row_name (is_eligible now) (IsEligible now) db.transactions
              (each now db.transactions)))
          h,
      scanned_order (limit_rows limit rows) ts
          (limit_order limit rows
            (select-IsOrdered retry_instant row_name (is_eligible now) db.transactions))
          h,
      scanned_length limit rows ts h
          ∙ ap (λ (k : ℕ). fewer limit k)
              (count-select retry_instant row_name (is_eligible now) (λ row. true) db.transactions
                ∙ same_count _ _ db.transactions (λ row. same_test now row)),
    )
