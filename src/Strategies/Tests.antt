-- ===== src/Strategies/Tests.antt =====
-- Runs of the strategies on concrete values.
use Prim.Native.String.{◌++◌}
use one_year_billion.Common.{
  ℕ, ◌≡◌, ◌≢◌, ◌⊎◌, refl, true, false, none, some, [], String, All, Memᴰ, Result, get, put, lower,
}
use one_year_billion.Common.Int.{◌+ℤ◌}
use one_year_billion.Common.Fixed.{Fixed, fixed_float}
use one_year_billion.Domain.{
  SignalCandidate, AccountSnapshot, MarketSnapshot, RegimeDecision, RiskDecision, Regime, mid,
  symbol_upper,
}
use one_year_billion.Regime.Priority.{safer_regime}
use one_year_billion.Regime.Permission.{strategy_allowed}
use one_year_billion.Regime.Classifier.{
  Reason, new_classifier, classify, raw_candidates, follow, signposts,
  apply_cooldown_and_hysteresis, begin_cooldown, settle,
}
use one_year_billion.Execution.Idempotency.{get_response}
use one_year_billion.Execution.Router.{Store, build_intent, new_intent}
use one_year_billion.Execution.Router.Laws.Steps.{order_key}
use one_year_billion.Strategies.Base.{Ids, HashPayload}
use one_year_billion.Strategies.StatarbShadow.{
  statarb_candidate, statarb_if_wide, propose_statarb_shadow,
}
use one_year_billion.Strategies.CarryShadow.{propose_carry_shadow}
use one_year_billion.Strategies.Orchestrator.{
  propose, live_candidates, live_strategies, shadow_candidates, shadow_strategies, shadow_only_of,
}
use one_year_billion.Strategies.Laws.Permitted.{proposes_permitted}
use one_year_billion.Strategies.Laws.Shadow.{kill_switch_stops_orders}
use one_year_billion.Strategies.Laws.Complete.{IsComplete, proposed-IsComplete}

abbrev money : ℕ → Fixed
money n = fixed_float.lit n 0

-- in place of the hash of a payload, and of SHA-256
abbrev payload_1 : HashPayload Fixed
payload_1 symbol name evidence = "h1"

abbrev digest : String → String
digest text = text ++ "0123456789abcdef0123456789"

abbrev ids_1 : String → Ids
ids_1 name = record { signal_id = "s-1"; feature_id = "f-1"; trace_id = "t-1" }

abbrev account_1 : AccountSnapshot Fixed
account_1 = record {
  equity_usdt = fixed_float.lit 10_000 0;
  available_balance_usdt = fixed_float.lit 9_000 0;
  phase = 2;
  account_mode = "runtime_checked";
  position_mismatch = false;
  daily_loss_hit = true;
  weekly_loss_hit = false;
  realized_negative_today_usdt = fixed_float.lit 400 0;
  realized_negative_week_usdt = fixed_float.lit 400 0;
  portfolio_abs_notional_usdt = fixed_float.lit 0 0;
  beta_adjusted_exposure_usdt = fixed_float.lit 0 0;
  fetched_at = 1;
  expires_at = 1_000;
}

-- a trend, with a range for the scanner of pairs
abbrev market_1 : MarketSnapshot Fixed
market_1 = record {
  symbol = "BTCUSDT";
  bid1 = fixed_float.lit 99 0;
  ask1 = fixed_float.lit 100 0;
  spread_bps = fixed_float.lit 2 0;
  depth_usdt = fixed_float.lit 2_000_000 0;
  funding_bps = fixed_float.lit 1 0;
  funding_fresh = true;
  volatility_bps = fixed_float.lit 50 0;
  atr_pct = fixed_float.lit 15 3;
  volume_z = fixed_float.lit 3 0;
  oi_delta_pct = fixed_float.lit 0 0;
  btc_aligned = true;
  structure_break = true;
  donchian_break = true;
  atr_expansion = true;
  oi_sanity = true;
  funding_sanity = true;
  range_width_bps = some (fixed_float.lit 40 0);
  adx = some (fixed_float.lit 10 0);
  fetched_at = 1;
  expires_at = 1_000;
}

abbrev risk_1 : RiskDecision Fixed String
risk_1 = record {
  risk_decision_id = "r1";
  signal_id = "s1";
  approved = true;
  reasons = [];
  sizing = record {
    qty = money 32;
    notional = money 3200;
    risk_budget = money 100;
    stop_distance_abs = money 3;
    stop_distance_pct = fixed_float.lit 3 2;
    max_loss_if_stop = money 99;
    effective_leverage = fixed_float.lit 42 2;
    reserve_cash_after_pct = fixed_float.lit 79 2;
    liquidation_distance_pct = money 2;
    expected_net_edge_bps = money 48;
  };
  limits_snapshot = record {
    risk_pct_default = fixed_float.lit 1 2;
    max_effective_leverage = money 3;
    reserve_cash_pct = fixed_float.lit 2 1;
    max_daily_loss_pct = fixed_float.lit 3 2;
    max_weekly_loss_pct = fixed_float.lit 6 2;
    daily_remaining_risk = money 300;
    weekly_remaining_risk = money 600;
    max_portfolio_abs_notional_usdt = none;
    max_beta_adjusted_exposure_usdt = none;
    min_liq_distance_pct = fixed_float.lit 5 2;
    min_net_edge_bps = money 2;
  };
  account_snapshot = record {
    equity_usdt = money 10_000;
    available_balance_usdt = money 9_000;
    phase = 1;
    account_mode = "runtime_checked";
    position_mismatch = false;
    daily_loss_hit = false;
    weekly_loss_hit = false;
    realized_negative_today_usdt = money 0;
    realized_negative_week_usdt = money 0;
    portfolio_abs_notional_usdt = money 1_000;
    beta_adjusted_exposure_usdt = money 1_000;
    fetched_at = 1;
    expires_at = 1_000;
  };
  specs_version = "v1";
  feature_hash = "h1";
  config_hash = "c1";
  trace_id = "t1";
  created_at = 100;
  expires_at = 700;
}

abbrev regime_1 : RegimeDecision Fixed Reason
regime_1 = record {
  regime_id = "g1";
  symbol = "BTCUSDT";
  regime = Regime.trend_up;
  confidence = fixed_float.lit 65 2;
  reasons = [];
  trace_id = "t1";
}

proposes_permitted_example :
    All
      (λ c.
        (c.shadow_only ≡ true)
        ⊎ ((strategy_allowed c.strategy Regime.trend_up account_1.phase).0 ≡ true))
      (propose payload_1 500 ids_1 true market_1 account_1 regime_1)
proposes_permitted_example = proposes_permitted payload_1 500 ids_1 true market_1 account_1 regime_1

proposed-IsComplete_example :
    All IsComplete (propose payload_1 500 ids_1 true market_1 account_1 regime_1)
proposed-IsComplete_example =
    proposed-IsComplete payload_1 500 ids_1 true market_1 account_1 regime_1 (λ s n e. refl) refl
      (λ name. refl)

unfoldable regime_2 : RegimeDecision Fixed Reason
regime_2 = (classify (new_classifier 2 300) 500 market_1 account_1 true false "g1" "t1").0

unfoldable candidate_1 : SignalCandidate Fixed
candidate_1 =
    statarb_candidate payload_1 (fixed_float.lit 40 0) (fixed_float.lit 10 0) market_1 account_1
      regime_2 (ids_1 "statarb_shadow")

proposed_1 : Memᴰ candidate_1 (propose payload_1 500 ids_1 true market_1 account_1 regime_2)
unfolding candidate_1 regime_2 propose live_candidates live_strategies shadow_candidates
    shadow_strategies shadow_only_of strategy_allowed lower classify new_classifier raw_candidates
    follow signposts apply_cooldown_and_hysteresis begin_cooldown settle safer_regime
    propose_statarb_shadow propose_carry_shadow statarb_if_wide statarb_candidate mid symbol_upper
    get put ◌+ℤ◌
proposed_1 = Memᴰ.head refl

abbrev store_0 : Store Fixed
store_0 = record { responses = []; symbol_locks = [] }

new_1 : get_response (order_key "k1") store_0 ≡ none
unfolding get_response get
new_1 = refl

kill_switch_stops_orders_example :
    build_intent digest 600 "o1" candidate_1 risk_1 "k1" store_0
    ≢ Result.ok (new_intent digest "o1" candidate_1 risk_1 "k1", store_0)
unfolding regime_2
kill_switch_stops_orders_example =
    kill_switch_stops_orders payload_1 ids_1 digest (new_classifier 2 300) 500 600 market_1
      account_1 true false true "g1" "t1" "o1" "k1" candidate_1 risk_1 store_0 refl proposed_1 new_1
