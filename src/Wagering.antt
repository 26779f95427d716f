-- ===== src/Wagering.antt =====
-- internal/domain/wagering: the wager transaction and its state machine.
pub mod Kind
pub mod Status
pub mod Failure
pub mod Transaction
mod Examples
