-- ===== src/Repository/Messages.antt =====
-- repository/inbox.go and the INSERT of repository/outbox.go.
use jungle_gaming.Prelude.{Bool, ◌==◌, ◌&&◌, if◌then◌else◌, ◌∷◌}
use jungle_gaming.Prelude.Bytes.{Bytes, bytes_eq}
use jungle_gaming.Shared.{Result, ok, err}
use jungle_gaming.Repository.Tables.{
  Statement, InboxMessage, OutboxRecord, find_row, exists_row, scan_row, err_violation,
  err_conflict,
}

-- (*OutboxRepository).Append
unfoldable pub append : OutboxRecord → Statement (Unit {0})
append event db =
    if exists_row (λ other. other.id == event.id) db.outbox
    then (err err_violation, db)
    else (ok tt, record db { outbox = event ∷ db.outbox })

abbrev pub is_delivery : Bytes → Bytes → InboxMessage → Bool
is_delivery consumer_name message_id row =
    bytes_eq row.consumer_name consumer_name && bytes_eq row.message_id message_id

-- ON CONFLICT (consumer_name, message_id) DO NOTHING: no row is affected then.
unfoldable pub record_message : InboxMessage → Statement (Unit {0})
record_message message db =
    if exists_row (is_delivery message.consumer_name message.message_id) db.inbox
    then (err err_conflict, db)
    else if exists_row (λ other. other.id == message.id) db.inbox
    then (err err_violation, db)
    else (ok tt, record db { inbox = message ∷ db.inbox })

-- The identifier was set when the row was written.
abbrev pub scan_message : InboxMessage → Result InboxMessage
scan_message row = ok row

unfoldable pub find_message : Bytes → Bytes → Statement InboxMessage
find_message consumer_name message_id db =
    (scan_row scan_message (find_row (is_delivery consumer_name message_id) db.inbox), db)
