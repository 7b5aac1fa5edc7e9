-- ===== src/Domain/Signals.antt =====
-- `RegimeDecision`, `SignalCandidate`, `MLVerdict`, `SizingResult` and `RiskDecision` of
-- app/schemas/domain.py.
use one_year_billion.Common.{ℕ, Bool, Option, List, String, Dict, leb, upper}
use one_year_billion.Common.Float.{Float, nought}
use one_year_billion.Domain.Enums.{Side, Regime, MlVerdictType}
use one_year_billion.Domain.Snapshots.{AccountSnapshot}

-- a value of the dictionary `evidence`
pub data Value (W : Type 0) : Type 0 where
  flag : Bool → Value W
  amount : W → Value W
  optional : Option W → Value W
  count : ℕ → Value W
  text : String → Value W

-- `R` is the type of the reasons that the classifier gives
pub record RegimeDecision (W R : Type 0) : Type 0 where
  pub regime_id : String
  pub symbol : String
  pub regime : Regime
  pub confidence : W
  pub reasons : List R
  pub trace_id : String

pub record SignalCandidate (W : Type 0) : Type 0 where
  pub signal_id : String
  pub strategy : String
  pub symbol : String
  pub side : Side
  pub entry_price : W
  pub stop_price : Option W
  pub invalidator : Option String
  pub expected_gross_edge_bps : W
  pub expected_holding_time_sec : ℕ
  pub required_data : List String
  pub regime_id : Option String
  pub feature_id : Option String
  pub trace_id : String
  pub strategy_version : String
  pub feature_hash : String
  pub evidence : Dict (Value W)
  pub requires_ml : Bool
  pub shadow_only : Bool

-- the field validator, which runs whenever a candidate is built
unfoldable pub symbol_upper : {W : Type 0} → SignalCandidate W → SignalCandidate W
symbol_upper s = record s { symbol = upper s.symbol }

pub record MlVerdict (W : Type 0) : Type 0 where
  pub verdict : MlVerdictType
  pub required : Bool
  pub block : Bool
  pub reason : String
  pub p_hit_2r : Option W
  pub uncertainty : Option W
  pub model_id : Option String
  pub feature_schema_hash : Option String

pub record SizingResult (W : Type 0) : Type 0 where
  pub qty : W
  pub notional : W
  pub risk_budget : W
  pub stop_distance_abs : W
  pub stop_distance_pct : W
  pub max_loss_if_stop : W
  pub effective_leverage : W
  pub reserve_cash_after_pct : W
  pub liquidation_distance_pct : W
  pub expected_net_edge_bps : W

-- `SizingResult(risk_budget=...)`: all else is at its default
unfoldable pub no_sizing : {W : Type 0} ⦃f : Float W⦄ → W → SizingResult W
no_sizing ⦃f⦄ budget = record {
  qty = nought;
  notional = nought;
  risk_budget = budget;
  stop_distance_abs = nought;
  stop_distance_pct = nought;
  max_loss_if_stop = nought;
  effective_leverage = nought;
  reserve_cash_after_pct = f.lit 1 0;
  liquidation_distance_pct = f.lit 1 0;
  expected_net_edge_bps = nought;
}

pub record LimitsSnapshot (W : Type 0) : Type 0 where
  pub risk_pct_default : W
  pub max_effective_leverage : W
  pub reserve_cash_pct : W
  pub max_daily_loss_pct : W
  pub max_weekly_loss_pct : W
  pub daily_remaining_risk : W
  pub weekly_remaining_risk : W
  pub max_portfolio_abs_notional_usdt : Option W
  pub max_beta_adjusted_exposure_usdt : Option W
  pub min_liq_distance_pct : W
  pub min_net_edge_bps : W

-- `R` is the type of the reasons for which the risk engine rejects
pub record RiskDecision (W R : Type 0) : Type 0 where
  pub risk_decision_id : String
  pub signal_id : String
  pub approved : Bool
  pub reasons : List R
  pub sizing : SizingResult W
  pub limits_snapshot : LimitsSnapshot W
  pub account_snapshot : AccountSnapshot W
  pub specs_version : String
  pub feature_hash : String
  pub config_hash : String
  pub trace_id : String
  pub created_at : ℕ
  pub expires_at : ℕ

unfoldable pub expired : {W R : Type 0} → ℕ → RiskDecision W R → Bool
expired now d = leb d.expires_at now
