-- ===== src/Messaging/Publisher/Leased.antt =====
-- The leases of the outbox: repository/outbox.go, Claim.
use jungle_gaming.Prelude.{
  ◌≡◌, arith, ℕ, true, false, ◌≤◌, Bool-cases, inl, inr, List, [], ◌∷◌, All,
}
use jungle_gaming.Prelude.Bytes.{Bytes}
use jungle_gaming.Prelude.Int.{ℤ}
use jungle_gaming.Shared.{Time, add_duration}
use jungle_gaming.Repository.Tables.{Db, OutboxRecord, update_rows}
use jungle_gaming.Repository.Outbox.{
  is_claimable, is_candidate, lease, candidates, claim, attempt_instant, event_name,
}
use jungle_gaming.Repository.Selection.{select-All, limit-All}

-- The row is none of the chosen ones, or it cannot be claimed at the instant.
abbrev IsApart : List OutboxRecord → Time → OutboxRecord → Type 0
IsApart chosen at row = is_claimable at row ≡ true → is_candidate chosen row ≡ false

leased_row :
    (chosen : List OutboxRecord) (publisher : Bytes) (until at : Time) (row : OutboxRecord)
    → at ≤ until
    → IsApart chosen at (lease publisher until row)
unfolding is_claimable
leased_row chosen publisher until at row h c = absurd (ground arith)

leased_rows :
    (chosen : List OutboxRecord) (publisher : Bytes) (until at : Time) (rows : List OutboxRecord)
    → at ≤ until
    → All (IsApart chosen at) (update_rows (is_candidate chosen) (lease publisher until) rows)
leased_rows chosen publisher until at [] h = tt
leased_rows chosen publisher until at (row ∷ rows) h = elim (Bool-cases (is_candidate chosen row)) [
  | inl t ↦
      rw t
        (leased_row chosen publisher until at row h, leased_rows chosen publisher until at rows h)
  | inr f ↦ rw f ((λ c. f), leased_rows chosen publisher until at rows h)
]

-- An event that a publisher has claimed is claimed by nobody until the lease has ended: whatever its batch,
-- a claim of the outbox that the first one left, at an instant that is not after the end of its lease,
-- chooses none of the first one's events.
pub claim_excludes :
    (publisher : Bytes) (limit limit' : ℕ) (ttl : ℤ) (now at : Time) (db : Db)
    → at ≤ add_duration now ttl
    → All
        (λ row. is_candidate (candidates limit now db.outbox) row ≡ false)
        (candidates limit' at (claim publisher limit ttl now db).1.outbox)
unfolding claim
claim_excludes publisher limit limit' ttl now at db h =
    let chosen = candidates limit now db.outbox in
    unfold candidates in
    limit-All (λ row. is_candidate chosen row ≡ false) limit' _
      (select-All attempt_instant event_name (is_claimable at)
        (λ row. is_candidate chosen row ≡ false) _
        (leased_rows chosen publisher (add_duration now ttl) at db.outbox h))
