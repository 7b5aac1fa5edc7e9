-- ===== src/Risk/Approval.antt =====
-- app/risk_engine/approval.py: `approve_signal`, as the chain of its `fail_if` calls.
pub mod Config
pub mod Checks
pub mod Decide
pub mod Laws
