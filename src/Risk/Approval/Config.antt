-- ===== src/Risk/Approval/Config.antt =====
-- `RiskConfig` and the reasons of app/risk_engine/approval.py.
use one_year_billion.Common.{ℕ, Option, none, List, [], ◌∷◌, String}
use one_year_billion.Common.Float.{Float}
use one_year_billion.Risk.Sizing.{SizingError}

abbrev pub shadow_only_strategies_phase_0_1 : List String
shadow_only_strategies_phase_0_1 =
    "carry" ∷ "carry_live" ∷ "funding" ∷ "funding_carry" ∷ "pair_statarb" ∷ "statarb"
    ∷ "statarb_live" ∷ "stat_arb" ∷ []

abbrev pub forbidden_product_strategies : List String
forbidden_product_strategies =
    "martingale" ∷ "dca" ∷ "spot_grid" ∷ "inverse_futures" ∷ "options" ∷ "copy_trading"
    ∷ "signal_bot" ∷ "portfolio_bot" ∷ []

pub record RiskConfig (W : Type 0) : Type 0 where
  pub risk_pct_default : W
  pub max_effective_leverage : W
  pub reserve_cash_pct : W
  pub approval_ttl_seconds : ℕ
  pub max_daily_loss_pct : W
  pub max_weekly_loss_pct : W
  pub max_portfolio_abs_notional_usdt : Option W
  pub max_beta_adjusted_exposure_usdt : Option W
  pub min_liq_distance_pct : W
  pub max_spread_bps : W
  pub min_depth_usdt : W
  pub min_net_edge_bps : W
  pub config_hash : String

module _ {W : Type 0} ⦃f : Float W⦄ where
  -- `RiskConfig()`
  unfoldable pub default_risk_config : RiskConfig W
  default_risk_config = record {
    risk_pct_default = f.lit 1 2;
    max_effective_leverage = f.lit 30 1;
    reserve_cash_pct = f.lit 20 2;
    approval_ttl_seconds = 60;
    max_daily_loss_pct = f.lit 3 2;
    max_weekly_loss_pct = f.lit 6 2;
    max_portfolio_abs_notional_usdt = none;
    max_beta_adjusted_exposure_usdt = none;
    min_liq_distance_pct = f.lit 5 2;
    max_spread_bps = f.lit 80 1;
    min_depth_usdt = f.lit 1000000 0;
    min_net_edge_bps = f.lit 20 1;
    config_hash = "default-config";
  }

-- The texts that the source appends to `reasons`.
pub data Reason : Type 0 where
  invalid_signal_numeric_value invalid_risk_config invalid_cost_model stale_account_state
        stale_orderbook stale_funding symbol_runtime_mismatch bad_instrument_specs
        invalid_instrument_specs invalid_market_snapshot invalid_account_equity
        invalid_account_balance missing_stop_or_invalidator missing_feature_hash
        incomplete_signal_lineage missing_strategy_evidence invalid_entry_price
        missing_or_nonpositive_gross_edge invalid_stop_price invalid_buy_stop_direction
        invalid_sell_stop_direction strategy_forbidden_product_scope strategy_shadow_only
        spread_too_wide depth_too_low position_mismatch loss_limit_hit
        daily_remaining_risk_exhausted weekly_remaining_risk_exhausted ml_unavailable_fail_closed
        min_qty_or_notional risk_budget_exceeded daily_remaining_risk_exceeded
        weekly_remaining_risk_exceeded leverage_cap instrument_max_leverage_cap
        portfolio_abs_exposure_cap beta_adjusted_exposure_cap reserve_cash_violation
        liq_distance_too_close no_net_edge_after_costs :
      Reason
  ml_block : String → Reason
  sizing_failed : SizingError → Reason
