-- ===== src/Http.antt =====
-- internal/platform/httpserver with the identities of internal/platform/auth: the routes of the operations.
pub mod Errors
pub mod Transactions
pub mod Answers
pub mod Isolation
pub mod Auth
pub mod Authorized
mod Examples
