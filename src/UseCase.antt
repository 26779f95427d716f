-- ===== src/UseCase.antt =====
-- internal/application/usecase: the use cases that HTTP and SQS share.
pub mod Monad
pub mod Results
pub mod Outbox
pub mod Process
pub mod OpenWallet
pub mod Reconcile
pub mod Pending
pub mod Inbox
pub mod Triple
pub mod Preserves
pub mod Gives
pub mod Atomic
pub mod Replay
pub mod Report
pub mod Books
pub mod Examples
