-- ===== src/Execution.antt =====
-- app/execution: from an approved risk decision to the order that is sent to the exchange.
pub mod Lifecycle
pub mod Idempotency
pub mod Router
pub mod Payload
pub mod Bybit
pub mod Submission
pub mod Samples
mod Tests
