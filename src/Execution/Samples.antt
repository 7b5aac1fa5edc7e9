-- ===== src/Execution/Samples.antt =====
-- Concrete values for the tests of the order's path.
use Prim.Native.String.{◌++◌}
use one_year_billion.Common.{ℕ, true, false, none, some, [], ◌∷◌, String}
use one_year_billion.Common.Fixed.{Fixed, fixed_float}
use one_year_billion.Domain.{SignalCandidate, RiskDecision, Side, Value}
use one_year_billion.Execution.Router.{Store}

abbrev pub money : ℕ → Fixed
money n = fixed_float.lit n 0

-- in place of SHA-256
abbrev pub digest : String → String
digest text = text ++ "0123456789abcdef0123456789"

abbrev pub signal_1 : SignalCandidate Fixed
signal_1 = record {
  signal_id = "s1";
  strategy = "breakout";
  symbol = "BTCUSDT";
  side = Side.buy;
  entry_price = money 100;
  stop_price = some (money 97);
  invalidator = some "close below 97";
  expected_gross_edge_bps = money 60;
  expected_holding_time_sec = 3600;
  required_data = "candles" ∷ [];
  regime_id = some "g1";
  feature_id = some "f1";
  trace_id = "t1";
  strategy_version = "1";
  feature_hash = "h1";
  evidence = ("donchian", Value.flag true) ∷ [];
  requires_ml = false;
  shadow_only = false;
}

abbrev pub signal_2 : SignalCandidate Fixed
signal_2 = record signal_1 { signal_id = "s2"; symbol = "btcusdt" }

abbrev pub risk_1 : RiskDecision Fixed String
risk_1 = record {
  risk_decision_id = "r1";
  signal_id = "s1";
  approved = true;
  reasons = [];
  sizing = record {
    qty = money 32;
    notional = money 3200;
    risk_budget = money 100;
    stop_distance_abs = money 3;
    stop_distance_pct = fixed_float.lit 3 2;
    max_loss_if_stop = money 99;
    effective_leverage = fixed_float.lit 42 2;
    reserve_cash_after_pct = fixed_float.lit 79 2;
    liquidation_distance_pct = money 2;
    expected_net_edge_bps = money 48;
  };
  limits_snapshot = record {
    risk_pct_default = fixed_float.lit 1 2;
    max_effective_leverage = money 3;
    reserve_cash_pct = fixed_float.lit 2 1;
    max_daily_loss_pct = fixed_float.lit 3 2;
    max_weekly_loss_pct = fixed_float.lit 6 2;
    daily_remaining_risk = money 300;
    weekly_remaining_risk = money 600;
    max_portfolio_abs_notional_usdt = none;
    max_beta_adjusted_exposure_usdt = none;
    min_liq_distance_pct = fixed_float.lit 5 2;
    min_net_edge_bps = money 2;
  };
  account_snapshot = record {
    equity_usdt = money 10_000;
    available_balance_usdt = money 9_000;
    phase = 1;
    account_mode = "runtime_checked";
    position_mismatch = false;
    daily_loss_hit = false;
    weekly_loss_hit = false;
    realized_negative_today_usdt = money 0;
    realized_negative_week_usdt = money 0;
    portfolio_abs_notional_usdt = money 1_000;
    beta_adjusted_exposure_usdt = money 1_000;
    fetched_at = 1;
    expires_at = 1_000;
  };
  specs_version = "v1";
  feature_hash = "h1";
  config_hash = "c1";
  trace_id = "t1";
  created_at = 100;
  expires_at = 700;
}

abbrev pub store_0 : Store Fixed
store_0 = record { responses = []; symbol_locks = [] }
