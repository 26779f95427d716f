-- ===== src/Messaging/Publisher.antt =====
-- internal/platform/awssqs/publisher.go: tick, publishOne, releaseAfterFailure and backoffDuration. The queue
-- is the list of the events that were sent, the newest first; the sending is a parameter. The loop and
-- its stop, the metrics and the log are left out.
pub mod Sent
pub mod Leased
pub mod Backoff
mod Examples
use jungle_gaming.Prelude.{
  ℕ, zero, suc, ◌-◌, Bool, if◌then◌else◌, Option, none, some, List, [], ◌∷◌,
}
use jungle_gaming.Prelude.Bytes.{Bytes}
use jungle_gaming.Prelude.Int.{ℤ, pos, negsuc, leb_ℤ, ltb_ℤ}
use jungle_gaming.Prelude.Int64.{add64, mul64, quo64}
use jungle_gaming.Shared.{Error, Result, ok, err, external, add_duration, Time}
use jungle_gaming.Repository.Tables.{OutboxRecord}
use jungle_gaming.Repository.Outbox.{claim, mark_published, release_with_backoff}
use jungle_gaming.UseCase.Monad.{Env, World, M, statement, execute, next_call}

pub record PublisherConfig : Type 0 where
  pub publisher_id : Bytes
  pub batch_size : ℕ
  pub lease_ttl : ℤ
  pub backoff_base : ℤ
  pub backoff_max : ℤ

-- Where the events go: the failure of the sending, by the number of the call.
pub record Sender : Type 0 where
  pub refuses : ℕ → Option ℕ

pub record Outlet : Type 0 where
  pub world : World
  pub sent : List OutboxRecord

-- The number of events that were published, and the error that ended the tick.
pub record PublishResult : Type 0 where
  pub published : ℕ
  pub failure : Option Error

-- The loop of backoffDuration, with the rounds that are left, and the cap after it.
unfoldable pub double_backoff : ℕ → ℤ → ℤ → ℤ
double_backoff zero delay max = if ltb_ℤ max delay then max else delay
double_backoff (suc n) delay max =
    let rest = double_backoff n (mul64 delay (pos 2)) max in
    if leb_ℤ (quo64 max 2) delay then max else rest

-- The rounds from 1 to the attempts, which are 1 at least.
abbrev pub retries : ℤ → ℕ
retries (pos n) = n - 1
retries (negsuc n) = 0

unfoldable pub backoff_duration : ℤ → ℤ → ℤ → ℤ
unfolding double_backoff
backoff_duration attempts base max = double_backoff (retries attempts) base max

module _ (env : Env) (sender : Sender) (config : PublisherConfig) where
  -- A unit of work of the publisher.
  abbrev in_unit : M (Unit {0}) → Outlet → Result (Unit {0}) × Outlet
  in_unit fn out =
      let (r, w) = execute env fn out.world in (r, record { world = w; sent = out.sent })

  -- The failure of the sending, unless the release fails too.
  abbrev or_publish_error : ℕ → Result (Unit {0}) × Outlet → Result (Unit {0}) × Outlet
  or_publish_error n (ok u, out) = (err (external n), out)
  or_publish_error n (err e, out) = (err e, out)

  unfoldable pub release_after_failure : OutboxRecord → ℕ → Outlet → Result (Unit {0}) × Outlet
  release_after_failure event n out =
      let now = env.now out.world.calls in
      let attempts = add64 event.attempts (pos 1) in
      let next =
        add_duration now (backoff_duration attempts config.backoff_base config.backoff_max) in
      or_publish_error n (
        in_unit (statement env (release_with_backoff event.id attempts next))
          (record out { world = next_call out.world }))

  -- After the event was sent: MarkPublished.
  unfoldable pub confirm : OutboxRecord → Outlet → Result (Unit {0}) × Outlet
  confirm event out =
      let now = env.now out.world.calls in
      in_unit (statement env (mark_published event.id now))
        (record out { world = next_call out.world })

  unfoldable pub after_sending : OutboxRecord → Option ℕ → Outlet → Result (Unit {0}) × Outlet
  unfolding release_after_failure confirm
  after_sending event (some n) out =
      release_after_failure event n (record out { world = next_call out.world })
  after_sending event none out =
      confirm event (record { world = next_call out.world; sent = event ∷ out.sent })

  -- publishOne
  unfoldable pub publish_one : OutboxRecord → Outlet → Result (Unit {0}) × Outlet
  unfolding after_sending
  publish_one event out = after_sending event (sender.refuses out.world.calls) out

  abbrev count_success : Result (Unit {0}) → ℕ → ℕ
  count_success (ok u) n = suc n
  count_success (err e) n = n

  -- The loop over the batch.
  unfoldable pub publish_all : List OutboxRecord → ℕ → Outlet → PublishResult × Outlet
  publish_all [] n out = (record { published = n; failure = none }, out)
  publish_all (event ∷ rest) n out =
      let (r, out') = publish_one event out in publish_all rest (count_success r n) out'

  unfoldable pub publish_claimed : Result (List OutboxRecord) → Outlet → PublishResult × Outlet
  unfolding publish_all
  publish_claimed (ok claimed) out = publish_all claimed 0 out
  publish_claimed (err e) out = (record { published = 0; failure = some e }, out)

  -- Tick
  unfoldable pub publish_tick : Outlet → PublishResult × Outlet
  unfolding publish_claimed
  publish_tick out =
      let now = env.now out.world.calls in
      let (claimed, w) =
        execute env
          (statement env (claim config.publisher_id config.batch_size config.lease_ttl now))
          (next_call out.world) in
      publish_claimed claimed (record { world = w; sent = out.sent })
