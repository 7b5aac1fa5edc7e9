-- ===== src/Strategies.antt =====
-- app/strategies: which trades are proposed in a regime.
pub mod Base
pub mod Breakout
pub mod MicroGrid
pub mod CarryShadow
pub mod StatarbShadow
pub mod Orchestrator
pub mod Laws
mod Tests
