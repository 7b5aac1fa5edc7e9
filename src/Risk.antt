-- ===== src/Risk.antt =====
-- app/risk_engine: what a trade costs, how large it may be, and whether it is approved.
pub mod Cost
pub mod Sizing
pub mod Approval
mod Tests
