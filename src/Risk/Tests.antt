-- ===== src/Risk/Tests.antt =====
-- Runs of the risk engine on concrete values: a long signal that is approved, and the checks of
-- accounts with NaN.
use one_year_billion.Common.Int.{◌+ℤ◌, ◌-ℤ◌, ◌*ℤ◌, quot_ℤ}
use one_year_billion.Common.{
  Option, String, upper, lower, ℕ, ◌≡◌, ◌≢◌, refl, true, false, none, some, [], ◌∷◌, Result,
  fails_at,
}
use one_year_billion.Common.Float.{IsNumber}
use one_year_billion.Common.Fixed.{Fixed, fixed_float, Fixed-IsIeee, mul_fixed, quot_fixed}
use one_year_billion.Domain.{
  SignalCandidate, AccountSnapshot, MarketSnapshot, InstrumentSpec, MlVerdict, MlVerdictType,
  SizingResult, Side, Value, no_sizing,
}
use one_year_billion.Risk.Cost.{default_costs, round_trip_cost_bps, expected_net_edge_bps}
use one_year_billion.Risk.Sizing.{
  SizingError, divide, floor_to_step, liquidation_distance, size_position,
  compute_sizing_after_rounding,
}
use one_year_billion.Risk.Approval.Config.{default_risk_config}
use one_year_billion.Risk.Approval.Decide.{
  Decision, approve_signal, decision, attempted_sizing, checks_after_sizing, checks_before_sizing,
  portfolio_abs_after, reasons_of, sizing_of_signal,
}
use one_year_billion.Risk.Approval.Checks.{
  numeric_checks, runtime_checks, lineage_checks, stop_checks, policy_checks, loss_checks,
  ml_checks, size_checks, portfolio_checks, reserve_checks, daily_remaining_risk,
  weekly_remaining_risk, beta_cap,
}
use one_year_billion.Risk.Approval.Laws.Inputs.{IsPriced, IsCurrent, IsPermitted, approved_inputs}
use one_year_billion.Risk.Approval.Laws.Limits.{IsMeasured, WithinLimits, approved_limits}
use one_year_billion.Risk.Approval.Laws.Nan.{nan_losses_pass}
use one_year_billion.Risk.Sizing.Laws.{sizing_raises_only_in_rounding}
use one_year_billion.Risk.Cost.Laws.{IsSound}
use one_year_billion.Ml.{ModelInfo, evaluate, evaluate_model}
use one_year_billion.Ml.Laws.{IsHealthy, approved-IsHealthy}

abbrev money : ℕ → Fixed
money n = fixed_float.lit n 0

abbrev signal_1 : SignalCandidate Fixed
signal_1 = record {
  signal_id = "s1";
  strategy = "breakout";
  symbol = "BTCUSDT";
  side = Side.buy;
  entry_price = money 100;
  stop_price = some (money 97);
  invalidator = some "close below 97";
  expected_gross_edge_bps = money 60;
  expected_holding_time_sec = 3600;
  required_data = "candles" ∷ [];
  regime_id = some "g1";
  feature_id = some "f1";
  trace_id = "t1";
  strategy_version = "1";
  feature_hash = "h1";
  evidence = ("donchian", Value.flag true) ∷ [];
  requires_ml = true;
  shadow_only = false;
}

abbrev account_1 : AccountSnapshot Fixed
account_1 = record {
  equity_usdt = money 10_000;
  available_balance_usdt = money 9_000;
  phase = 1;
  account_mode = "runtime_checked";
  position_mismatch = false;
  daily_loss_hit = false;
  weekly_loss_hit = false;
  realized_negative_today_usdt = money 0;
  realized_negative_week_usdt = money 50;
  portfolio_abs_notional_usdt = money 1_000;
  beta_adjusted_exposure_usdt = money 1_000;
  fetched_at = 1;
  expires_at = 1_000;
}

abbrev market_1 : MarketSnapshot Fixed
market_1 = record {
  symbol = "BTCUSDT";
  bid1 = money 99;
  ask1 = money 100;
  spread_bps = money 2;
  depth_usdt = money 2_000_000;
  funding_bps = money 1;
  funding_fresh = true;
  volatility_bps = money 50;
  atr_pct = fixed_float.lit 1 2;
  volume_z = money 1;
  oi_delta_pct = money 0;
  btc_aligned = true;
  structure_break = true;
  donchian_break = true;
  atr_expansion = true;
  oi_sanity = true;
  funding_sanity = true;
  range_width_bps = none;
  adx = none;
  fetched_at = 1;
  expires_at = 1_000;
}

abbrev specs_1 : InstrumentSpec Fixed
specs_1 = record {
  symbol = "btcusdt";
  category = "linear";
  status = "Trading";
  tick_size = fixed_float.lit 1 1;
  qty_step = money 8;
  min_qty = money 8;
  min_notional = money 5;
  max_leverage = money 10;
  specs_version = "v1";
  fetched_at = 1;
  expires_at = 1_000;
}

abbrev ml_1 : MlVerdict Fixed
ml_1 = record {
  verdict = MlVerdictType.allow;
  required = true;
  block = false;
  reason = "";
  p_hit_2r = none;
  uncertainty = none;
  model_id = none;
  feature_schema_hash = none;
}

unfoldable decision_1 : Decision Fixed
unfolding decision default_costs default_risk_config
decision_1 =
    decision 500 signal_1 ml_1 account_1 market_1 specs_1 default_risk_config default_costs "r1" []

approve_1 :
    approve_signal 500 signal_1 ml_1 account_1 market_1 specs_1 default_risk_config default_costs
      "r1"
    ≡ Result.ok decision_1
unfolding decision_1 approve_signal divide numeric_checks runtime_checks upper lineage_checks
    stop_checks policy_checks lower loss_checks ◌-ℤ◌ mul_fixed ml_checks
    compute_sizing_after_rounding size_position quot_fixed ◌+ℤ◌ size_checks quot_ℤ ◌*ℤ◌ no_sizing
    beta_cap daily_remaining_risk portfolio_checks reserve_checks weekly_remaining_risk
    default_risk_config attempted_sizing checks_after_sizing checks_before_sizing decision
    portfolio_abs_after reasons_of sizing_of_signal default_costs expected_net_edge_bps
    round_trip_cost_bps floor_to_step liquidation_distance
approve_1 = refl

approved_1 : decision_1.approved ≡ true
unfolding decision_1 decision
approved_1 = refl

decision_1-IsMeasured : IsMeasured account_1 default_risk_config decision_1.sizing
unfolding decision_1 approve_signal divide numeric_checks runtime_checks upper lineage_checks
    stop_checks policy_checks lower loss_checks ◌-ℤ◌ mul_fixed ml_checks
    compute_sizing_after_rounding size_position quot_fixed ◌+ℤ◌ size_checks quot_ℤ ◌*ℤ◌ no_sizing
    beta_cap daily_remaining_risk portfolio_checks reserve_checks weekly_remaining_risk
    default_risk_config attempted_sizing checks_after_sizing checks_before_sizing decision
    portfolio_abs_after reasons_of sizing_of_signal default_costs expected_net_edge_bps
    round_trip_cost_bps floor_to_step liquidation_distance
decision_1-IsMeasured = record {
  qty = refl;
  notional = refl;
  budget = refl;
  loss = refl;
  leverage = refl;
  reserve = refl;
  edge = refl;
  daily = refl;
  weekly = refl;
  beta = refl;
  cap = refl;
}

approved_inputs_example :
    IsPriced signal_1
    × IsCurrent 500 signal_1 account_1 market_1 specs_1
    × IsPermitted signal_1 ml_1 account_1 market_1 default_risk_config
approved_inputs_example =
    approved_inputs Fixed-IsIeee 500 signal_1 ml_1 account_1 market_1 specs_1 default_risk_config
      default_costs "r1" approve_1 approved_1

approved_limits_example : WithinLimits account_1 specs_1 default_risk_config decision_1.sizing
approved_limits_example =
    approved_limits Fixed-IsIeee 500 signal_1 ml_1 account_1 market_1 specs_1 default_risk_config
      default_costs "r1" approve_1 approved_1 decision_1-IsMeasured

-- a step of zero, at which the sizing raises
abbrev specs_zero : InstrumentSpec Fixed
specs_zero = record specs_1 { qty_step = money 0 }

sizing_zero_step :
    compute_sizing_after_rounding signal_1 account_1 market_1 specs_zero
      (money 1)
      (money 3)
      default_costs
    ≡ Result.raised SizingError.step_must_be_positive
unfolding decision_1 approve_signal divide numeric_checks runtime_checks upper lineage_checks
    stop_checks policy_checks lower loss_checks ◌-ℤ◌ mul_fixed ml_checks
    compute_sizing_after_rounding size_position quot_fixed ◌+ℤ◌ size_checks quot_ℤ ◌*ℤ◌ no_sizing
    beta_cap daily_remaining_risk portfolio_checks reserve_checks weekly_remaining_risk
    default_risk_config attempted_sizing checks_after_sizing checks_before_sizing decision
    portfolio_abs_after reasons_of sizing_of_signal default_costs expected_net_edge_bps
    round_trip_cost_bps floor_to_step liquidation_distance
sizing_zero_step = refl

sizing_raises_only_in_rounding_example :
    SizingError.step_must_be_positive ≢ SizingError.zero_division
sizing_raises_only_in_rounding_example =
    sizing_raises_only_in_rounding Fixed-IsIeee signal_1 account_1 market_1 specs_zero (money 1)
      (money 3) default_costs sizing_zero_step

default_costs-IsSound : IsSound {W = Fixed} default_costs
unfolding default_costs
default_costs-IsSound = record {
  maker = (refl, refl);
  taker = (refl, refl);
  slippage = refl;
  funding = refl;
  safety = refl;
}

abbrev account_nan : AccountSnapshot Fixed
account_nan = record account_1 {
  realized_negative_today_usdt = none;
  realized_negative_week_usdt = none;
  portfolio_abs_notional_usdt = none;
}

nan-IsNumber : ¬ IsNumber {W = Fixed} none
nan-IsNumber h = cc

unfoldable sizing_nan : SizingResult Fixed
sizing_nan = record {
  qty = money 32;
  notional = money 3200;
  risk_budget = money 100;
  stop_distance_abs = money 3;
  stop_distance_pct = fixed_float.lit 3 2;
  max_loss_if_stop = fixed_float.lit 9984 2;
  effective_leverage = none;
  reserve_cash_after_pct = fixed_float.lit 792949333333 12;
  liquidation_distance_pct = money 1;
  expected_net_edge_bps = money 48;
}

size_nan :
    size_position signal_1 account_nan market_1 specs_1 default_risk_config.risk_pct_default
      default_risk_config.max_effective_leverage default_costs
      (money 3)
    ≡ Result.ok sizing_nan
unfolding decision_1 sizing_nan approve_signal divide numeric_checks runtime_checks upper
    lineage_checks stop_checks policy_checks lower loss_checks ◌-ℤ◌ mul_fixed ml_checks
    compute_sizing_after_rounding size_position quot_fixed ◌+ℤ◌ size_checks quot_ℤ ◌*ℤ◌ no_sizing
    beta_cap daily_remaining_risk portfolio_checks reserve_checks weekly_remaining_risk
    default_risk_config attempted_sizing checks_after_sizing checks_before_sizing decision
    portfolio_abs_after reasons_of sizing_of_signal default_costs expected_net_edge_bps
    round_trip_cost_bps floor_to_step liquidation_distance
size_nan = refl

nan_losses_pass_example :
    (fails_at 0 (loss_checks account_nan default_risk_config) ≡ false)
    × (fails_at 1 (loss_checks account_nan default_risk_config) ≡ false)
    × (fails_at 2 (size_checks account_nan specs_1 default_risk_config sizing_nan) ≡ false)
    × (fails_at 3 (size_checks account_nan specs_1 default_risk_config sizing_nan) ≡ false)
nan_losses_pass_example =
    nan_losses_pass Fixed-IsIeee account_nan specs_1 default_risk_config sizing_nan nan-IsNumber
      nan-IsNumber

abbrev latest_1 : String → Option ModelInfo
latest_1 name = some (record {
  model_id = "m1";
  path = "models/breakout/m1";
  feature_schema_hash = "fs1";
  created_at = 1;
  expires_at = 450;
  calibration_pass = true;
  drift_pass = true;
})

unfoldable decision_2 : Decision Fixed
decision_2 =
    decision 500 signal_1 (evaluate latest_1 false 400 signal_1) account_1 market_1 specs_1
      default_risk_config default_costs "r3" []

approve_2 :
    approve_signal 500 signal_1
      (evaluate latest_1 false 400 signal_1)
      account_1
      market_1
      specs_1
      default_risk_config
      default_costs
      "r3"
    ≡ Result.ok decision_2
unfolding decision_2 evaluate evaluate_model approve_signal divide numeric_checks runtime_checks
    upper lineage_checks stop_checks policy_checks lower loss_checks ◌-ℤ◌ mul_fixed ml_checks
    compute_sizing_after_rounding size_position quot_fixed ◌+ℤ◌ size_checks quot_ℤ ◌*ℤ◌ no_sizing
    beta_cap daily_remaining_risk portfolio_checks reserve_checks weekly_remaining_risk
    default_risk_config attempted_sizing checks_after_sizing checks_before_sizing decision
    portfolio_abs_after reasons_of sizing_of_signal default_costs expected_net_edge_bps
    round_trip_cost_bps floor_to_step liquidation_distance
approve_2 = refl

approved_2 : decision_2.approved ≡ true
unfolding decision_2 decision
approved_2 = refl

approved-IsHealthy_example :
    (model : ModelInfo) × (latest_1 "breakout" ≡ some model) × IsHealthy 400 model
approved-IsHealthy_example =
    approved-IsHealthy Fixed-IsIeee latest_1 400 500 signal_1 account_1 market_1 specs_1
      default_risk_config default_costs "r3" refl approve_2 approved_2
