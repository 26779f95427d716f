-- ===== src/Repository/Outbox.antt =====
-- repository/outbox.go: the leases of the outbox. FOR UPDATE SKIP LOCKED passes over the rows that another
-- transaction holds; there is none here. RETURNING has no order of its own; the rows come in the order
-- in which the candidates were chosen.
use jungle_gaming.Prelude.{
  ℕ, Bool, true, false, ltb, leb, ◌==◌, ◌&&◌, ◌||◌, not, if◌then◌else◌, Option, none, some, List,
  [], ◌∷◌,
}
use jungle_gaming.Prelude.Bytes.{Bytes}
use jungle_gaming.Prelude.Int.{ℤ, pos, leb_ℤ}
use jungle_gaming.Shared.{Result, ok, err, ◌>>=◌, ◌>>◌, Uuid, Time, add_duration}
use jungle_gaming.Repository.Rows.{scan_id}
use jungle_gaming.Repository.Tables.{
  Statement, OutboxRecord, exists_row, update_rows, count_rows, require_single_row, err_violation,
}
use jungle_gaming.Repository.Ordered.{select_rows, limit_rows}

abbrev pub is_unpublished : Option Time → Bool
is_unpublished none = true
is_unpublished (some at) = false

-- locked_until IS NULL OR locked_until < $1
abbrev pub is_free : Time → Option Time → Bool
is_free now none = true
is_free now (some at) = ltb at now

-- The WHERE of the candidates.
unfoldable pub is_claimable : Time → OutboxRecord → Bool
is_claimable now row =
    is_unpublished row.published_at && leb row.next_attempt_at now && is_free now row.locked_until

abbrev pub attempt_instant : OutboxRecord → Time
attempt_instant row = row.next_attempt_at

abbrev pub event_name : OutboxRecord → Uuid
event_name row = row.id

unfoldable pub candidates : ℕ → Time → List OutboxRecord → List OutboxRecord
candidates limit now rows =
    limit_rows limit (select_rows attempt_instant event_name (is_claimable now) rows)

abbrev pub is_event : Uuid → OutboxRecord → Bool
is_event id row = row.id == id

-- WHERE o.id = c.id
abbrev pub is_candidate : List OutboxRecord → OutboxRecord → Bool
is_candidate chosen row = exists_row (is_event row.id) chosen

abbrev pub lease : Bytes → Time → OutboxRecord → OutboxRecord
lease publisher_id until row = record row {
  locked_by = some publisher_id;
  locked_until = some until;
}

abbrev pub lease_rows : Bytes → Time → List OutboxRecord → List OutboxRecord
lease_rows publisher_id until [] = []
lease_rows publisher_id until (row ∷ rows) =
    lease publisher_id until row ∷ lease_rows publisher_id until rows

-- scanOutbox
unfoldable pub scan_outbox : OutboxRecord → Result OutboxRecord
scan_outbox row = do scan_id row.id; scan_id row.aggregate_id; ok row

unfoldable pub scan_events : List OutboxRecord → Result (List OutboxRecord)
unfolding scan_outbox
scan_events [] = ok []
scan_events (row ∷ rows) = do event ← scan_outbox row; rest ← scan_events rows; ok (event ∷ rest)

-- Claim
unfoldable pub claim : Bytes → ℕ → ℤ → Time → Statement (List OutboxRecord)
unfolding candidates scan_events
claim publisher_id limit lease_ttl now db =
    let until = add_duration now lease_ttl in
    let chosen = candidates limit now db.outbox in
    (
      scan_events (lease_rows publisher_id until chosen),
      record db { outbox = update_rows (is_candidate chosen) (lease publisher_id until) db.outbox },
    )

-- WHERE id = $1 AND published_at IS NULL
abbrev pub is_waiting : Uuid → OutboxRecord → Bool
is_waiting id row = is_event id row && is_unpublished row.published_at

abbrev pub publish_row : Time → OutboxRecord → OutboxRecord
publish_row now row = record row { published_at = some now; locked_by = none; locked_until = none }

unfoldable pub mark_published : Uuid → Time → Statement (Unit {0})
mark_published id now db = (
  require_single_row (count_rows (is_waiting id) db.outbox),
  record db { outbox = update_rows (is_waiting id) (publish_row now) db.outbox },
)

abbrev pub release_row : ℤ → Time → OutboxRecord → OutboxRecord
release_row attempts next row = record row {
  attempts = attempts;
  next_attempt_at = next;
  locked_by = none;
  locked_until = none;
}

-- The update of no row meets no constraint.
unfoldable pub release_with_backoff : Uuid → ℤ → Time → Statement (Unit {0})
release_with_backoff id attempts next db =
    if leb_ℤ (pos 0) attempts || not (exists_row (is_waiting id) db.outbox)
    then (
      require_single_row (count_rows (is_waiting id) db.outbox),
      record db { outbox = update_rows (is_waiting id) (release_row attempts next) db.outbox },
    )
    else (err err_violation, db)
