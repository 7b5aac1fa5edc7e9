-- ===== src/Execution/Bybit.antt =====
-- app/execution/bybit_adapter.py and app/execution/rate_limiter.py: the boundary to the exchange.
pub mod Error
pub mod Values
pub mod Limiter
pub mod Session
pub mod Answers
pub mod Client
pub mod Orders
mod Tests
