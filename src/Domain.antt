-- ===== src/Domain.antt =====
-- app/schemas/domain.py: the enumerations and records that the components exchange. A `float` is a
-- value of the parameter `W`, a `datetime` a number of microseconds, and a property that reads the
-- clock takes the present time as its first argument.
mod Enums
mod Snapshots
mod Signals
mod Orders
pub use Enums.*
pub use Snapshots.{InstrumentSpec, MarketSnapshot, AccountSnapshot, fresh_at}
unfoldable pub use Snapshots.{mid}
pub use Signals.{
  Value, RegimeDecision, SignalCandidate, MlVerdict, SizingResult, LimitsSnapshot, RiskDecision,
}
unfoldable pub use Signals.{no_sizing, expired, symbol_upper}
pub use Orders.*
