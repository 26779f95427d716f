-- ===== src/Repository.antt =====
-- internal/platform/postgres/repository and migrations/000001_initial_schema.up.sql: the rows, the
-- SQL statements and the constraints that PostgreSQL checks on them.
pub mod Rows
pub mod Tables
pub mod Wallets
pub mod Transactions
pub mod Entries
pub mod Messages
pub mod Ordered
pub mod Scanned
pub mod Pending
pub mod Outbox
pub mod RowLaws
pub mod Listing
pub mod Selection
pub mod Paging
pub mod Pages
pub mod Claiming
mod Examples
