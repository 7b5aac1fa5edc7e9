-- ===== src/Strategies/Base.antt =====
-- What the strategies share: app/strategies/base.py, and the library calls of their candidates.
use one_year_billion.Common.{List, String, Dict}
use one_year_billion.Domain.{
  Regime, SignalCandidate, AccountSnapshot, MarketSnapshot, RegimeDecision, Value,
}
use one_year_billion.Regime.Classifier.{Reason}

-- the results of `uuid4` and `new_trace_id` for one candidate
pub record Ids : Type 0 where
  pub signal_id : String
  pub feature_id : String
  pub trace_id : String

-- `hash_payload({'symbol': ..., 'strategy': ..., 'evidence': ...})`
abbrev pub HashPayload : Type 0 → Type 0
HashPayload W = String → String → Dict (Value W) → String

-- `Strategy.propose`
abbrev pub Propose : Type 0 → Type 0
Propose W =
    MarketSnapshot W → AccountSnapshot W → RegimeDecision W Reason → Ids → List (SignalCandidate W)

-- `regime.value`
abbrev pub regime_value : Regime → String
regime_value Regime.de_risk = "DE_RISK"
regime_value Regime.no_trade = "NO_TRADE"
regime_value Regime.news_risk = "NEWS_RISK"
regime_value Regime.liquidation = "LIQUIDATION"
regime_value Regime.high_vol = "HIGH_VOL"
regime_value Regime.trend_up = "TREND_UP"
regime_value Regime.trend_down = "TREND_DOWN"
regime_value Regime.range = "RANGE"
regime_value Regime.low_vol = "LOW_VOL"
