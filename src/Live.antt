-- ===== src/Live.antt =====
-- app/live: the checks that stand before any live submission.
pub mod Report
pub mod ExchangeChecks
pub mod Preflight
pub mod Evidence
pub mod Gate
mod Tests
