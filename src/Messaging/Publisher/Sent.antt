-- ===== src/Messaging/Publisher/Sent.antt =====
-- The events that are published, against those that were sent.
use jungle_gaming.Prelude.{
  ◌≡◌, refl, arith, ℕ, Bool, true, false, ==-refl, if◌then◌else◌, Bool-cases, inl, inr, Option,
  none, some, List, [], ◌∷◌, All,
}
use jungle_gaming.Prelude.Bytes.{Bytes}
use jungle_gaming.Prelude.Int.{ℤ}
use jungle_gaming.Shared.{Result, ok, err, Uuid, Time, add_duration}
use jungle_gaming.Repository.Tables
use jungle_gaming.Repository.Tables.{Db, OutboxRecord, exists_row, update_rows}
use jungle_gaming.Repository.Outbox.{
  is_event, is_unpublished, is_waiting, is_candidate, lease, candidates, publish_row, release_row,
  claim, mark_published, release_with_backoff,
}
use jungle_gaming.UseCase.Monad.{Env, statement, execute, next_call}
use jungle_gaming.UseCase.Preserves.{Safe, Preserves-statement, Preserves-execute}
use jungle_gaming.Messaging.Publisher.{
  PublisherConfig, Sender, Outlet, release_after_failure, confirm, after_sending, publish_one,
  publish_all, publish_claimed, publish_tick, or_publish_error,
}

abbrev pub was_sent : Uuid → List OutboxRecord → Bool
was_sent id sent = exists_row (is_event id) sent

-- A published row is of an event that was sent.
abbrev pub IsBacked : List OutboxRecord → OutboxRecord → Type 0
IsBacked sent row = is_unpublished row.published_at ≡ false → was_sent row.id sent ≡ true

abbrev pub AllBacked : List OutboxRecord → Db → Type 0
AllBacked sent db = All (IsBacked sent) db.outbox

update-All :
    (P : OutboxRecord → Type 0) (test : OutboxRecord → Bool) (change : OutboxRecord → OutboxRecord)
    (rows : List OutboxRecord)
    → ((row : OutboxRecord) → test row ≡ true → P row → P (change row))
    → All P rows
    → All P (update_rows test change rows)
update-All P test change [] h a = tt
update-All P test change (row ∷ rows) h (p, a) = elim (Bool-cases (test row)) [
  | inl t ↦ rw t (h row t p, update-All P test change rows h a)
  | inr f ↦ rw f (p, update-All P test change rows h a)
]

more_sent :
    (event : OutboxRecord) (sent rows : List OutboxRecord)
    → All (IsBacked sent) rows
    → All (IsBacked (event ∷ sent)) rows
more_sent event sent [] h = tt
more_sent event sent (row ∷ rows) (b, h) =
    (λ p. let earlier = b p in ground arith, more_sent event sent rows h)

module _ (sent : List OutboxRecord) where
  claim_safe :
      (publisher : Bytes) (limit : ℕ) (ttl : ℤ) (now : Time)
      → Safe (AllBacked sent) (claim publisher limit ttl now)
  unfolding claim
  claim_safe publisher limit ttl now db h =
      update-All (IsBacked sent) (is_candidate (candidates limit now db.outbox))
        (lease publisher (add_duration now ttl)) db.outbox (λ row t b. b) h

  mark_safe :
      (id : Uuid) (now : Time)
      → was_sent id sent ≡ true
      → Safe (AllBacked sent) (mark_published id now)
  unfolding mark_published
  mark_safe id now s db h =
      update-All (IsBacked sent) (is_waiting id) (publish_row now) db.outbox
        (λ row t b. λ p. let same : row.id ≡ id = ground arith in rw same s) h

  released_rows :
      (b : Bool) (r : Result (Unit {0})) (id : Uuid) (attempts : ℤ) (next : Time) (db : Db)
      → AllBacked sent db
      → AllBacked sent
          (if◌then◌else◌ {A = Result (Unit {0}) × Db} b
            (
              r,
              record db {
                outbox = update_rows (is_waiting id) (release_row attempts next) db.outbox;
              },
            )
            (err Tables.err_violation, db)).1
  released_rows true r id attempts next db h =
      update-All (IsBacked sent) (is_waiting id) (release_row attempts next) db.outbox
        (λ row t b. b) h
  released_rows false r id attempts next db h = h

  release_safe :
      (id : Uuid) (attempts : ℤ) (next : Time)
      → Safe (AllBacked sent) (release_with_backoff id attempts next)
  unfolding release_with_backoff
  release_safe id attempts next db h = released_rows _ _ id attempts next db h

-- Every published event was sent.
abbrev pub IsHonest : Outlet → Type 0
IsHonest out = AllBacked out.sent out.world.db

module _ (env : Env) (sender : Sender) (config : PublisherConfig) where
  error_kept :
      (n : ℕ) (p : Result (Unit {0}) × Outlet)
      → IsHonest p.1
      → IsHonest (or_publish_error env sender config n p).1
  error_kept n (ok u, out) h = h
  error_kept n (err e, out) h = h

  after_sending-IsHonest :
      (event : OutboxRecord) (o : Option ℕ) (out : Outlet)
      → IsHonest out
      → IsHonest (after_sending env sender config event o out).1
  unfolding after_sending release_after_failure confirm
  after_sending-IsHonest event (some n) out h = error_kept n _ (
      (Preserves-execute env _ (Preserves-statement env _ (release_safe out.sent event.id _ _))).at
        _ h)
  after_sending-IsHonest event none out h =
      (Preserves-execute env _ (
          Preserves-statement env _
            (mark_safe (event ∷ out.sent) event.id _ (rw (==-refl event.id) refl)))).at
        _ (more_sent event out.sent out.world.db.outbox h)

  publish_all-IsHonest :
      (events : List OutboxRecord) (n : ℕ) (out : Outlet)
      → IsHonest out
      → IsHonest (publish_all env sender config events n out).1
  unfolding publish_all publish_one
  publish_all-IsHonest [] n out h = h
  publish_all-IsHonest (event ∷ rest) n out h =
      publish_all-IsHonest rest _ _ (after_sending-IsHonest event _ out h)

  claimed-IsHonest :
      (r : Result (List OutboxRecord)) (out : Outlet)
      → IsHonest out
      → IsHonest (publish_claimed env sender config r out).1
  unfolding publish_claimed
  claimed-IsHonest (ok events) out h = publish_all-IsHonest events 0 out h
  claimed-IsHonest (err e) out h = h

  -- No event is marked as published without having been sent: if that holds of the outbox and of what was
  -- sent before, it holds after a tick of the publisher, whatever sendings and calls of the database fail.
  pub publish_tick-IsHonest :
      (out : Outlet) → IsHonest out → IsHonest (publish_tick env sender config out).1
  unfolding publish_tick
  publish_tick-IsHonest out h =
      let now = env.now out.world.calls in
      let s : Tables.Statement (List OutboxRecord) =
        claim config.publisher_id config.batch_size config.lease_ttl now in
      let w = next_call out.world in
      let safe = claim_safe out.sent config.publisher_id config.batch_size config.lease_ttl now in
      claimed-IsHonest (execute env (statement env s) w).0
        (record { world = (execute env (statement env s) w).1; sent = out.sent })
        ((Preserves-execute env (statement env s) (Preserves-statement env s safe)).at w h)
