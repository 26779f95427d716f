-- ===== src/UseCase/Pending.antt =====
-- usecase/resolve_pending.go: ResolvePendingReferences, the worker's side of ProcessWagerTransaction. The
-- counters of observePending are left out.
pub mod Policy
pub mod Resume
pub mod Tick
pub mod Backoff
pub mod Waiting
pub mod Amounts
pub mod Claimed
pub mod Keeping
mod Examples
