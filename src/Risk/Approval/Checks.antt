-- ===== src/Risk/Approval/Checks.antt =====
-- The `fail_if` calls of `approve_signal`, in their order, in groups that stand next to one another
-- in the source.
use one_year_billion.Common.{
  ℕ, is_none, leb, Bool, true, false, not, ◌&&◌, ◌||◌, none, some, List, [], ◌∷◌, String, ◌≟◌,
  truthy, truthy?, is_in, is_empty, upper, lower, any, Guard, ◌⇒◌, if◌then◌else◌,
}
use one_year_billion.Common.Float.{Float, ◌<?◌, ◌<=?◌, ◌==?◌, ◌⊕◌, ◌⊖◌, ◌⊗◌, nought, py_max}
use one_year_billion.Domain.{
  SignalCandidate, AccountSnapshot, MarketSnapshot, InstrumentSpec, MlVerdict, MlVerdictType,
  SizingResult, fresh_at, is_buy,
}
use one_year_billion.Risk.Cost.{CostModel}
use one_year_billion.Risk.Approval.Config.{
  RiskConfig, Reason, shadow_only_strategies_phase_0_1, forbidden_product_strategies,
}

-- `ml.verdict.value`
abbrev pub verdict_value : MlVerdictType → String
verdict_value MlVerdictType.allow = "ALLOW"
verdict_value MlVerdictType.block = "BLOCK"
verdict_value MlVerdictType.unavailable = "UNAVAILABLE"

abbrev pub is_unavailable : MlVerdictType → Bool
is_unavailable MlVerdictType.unavailable = true
is_unavailable _ = false

module _ {W : Type 0} ⦃f : Float W⦄ where
  -- `_is_finite_number`, of a value that is a float
  abbrev pub is_finite_number : W → Bool
  is_finite_number x = f.is_finite x

  abbrev pub is_nonnegative_number : W → Bool
  is_nonnegative_number x = is_finite_number x && nought <=? x

  abbrev pub is_positive_number : W → Bool
  is_positive_number x = is_finite_number x && nought <? x

  abbrev pub not_finite : W → Bool
  not_finite x = not (is_finite_number x)

  abbrev pub not_nonnegative : W → Bool
  not_nonnegative x = not (is_nonnegative_number x)

  abbrev pub not_positive : W → Bool
  not_positive x = not (is_positive_number x)

  -- `(signal.entry_price, signal.expected_gross_edge_bps)` and the stop, if there is one
  abbrev pub signal_numbers : SignalCandidate W → List W
  signal_numbers s = elim s.stop_price [
    | none ↦ s.entry_price ∷ s.expected_gross_edge_bps ∷ []
    | some stop ↦ s.entry_price ∷ s.expected_gross_edge_bps ∷ stop ∷ []
  ]

  abbrev pub cfg_numbers : RiskConfig W → List W
  cfg_numbers c =
      c.risk_pct_default ∷ c.max_effective_leverage ∷ c.reserve_cash_pct ∷ c.max_daily_loss_pct
      ∷ c.max_weekly_loss_pct ∷ c.min_liq_distance_pct ∷ c.max_spread_bps ∷ c.min_depth_usdt
      ∷ c.min_net_edge_bps ∷ []

  unfoldable pub numeric_checks :
      SignalCandidate W → RiskConfig W → CostModel W → List (Guard Reason)
  numeric_checks signal cfg costs =
      any not_finite (signal_numbers signal) ⇒ Reason.invalid_signal_numeric_value
      ∷ (any not_finite (cfg_numbers cfg)
          || not_positive cfg.risk_pct_default
          || not_positive cfg.max_effective_leverage
          || not_nonnegative cfg.reserve_cash_pct
          || not_nonnegative cfg.max_daily_loss_pct
          || not_nonnegative cfg.max_weekly_loss_pct
          || not_nonnegative cfg.min_liq_distance_pct
          || not_nonnegative cfg.max_spread_bps
          || not_nonnegative cfg.min_depth_usdt
          || not_nonnegative cfg.min_net_edge_bps)
        ⇒ Reason.invalid_risk_config
      ∷ any not_nonnegative (
          costs.maker_fee_bps ∷ costs.taker_fee_bps ∷ costs.slippage_buffer_bps
          ∷ costs.funding_buffer_bps ∷ costs.safety_buffer_bps ∷ [])
        ⇒ Reason.invalid_cost_model
      ∷ []

  unfoldable pub runtime_checks :
      ℕ
      → SignalCandidate W
      → AccountSnapshot W
      → MarketSnapshot W
      → InstrumentSpec W
      → List (Guard Reason)
  runtime_checks now signal account market specs =
      not (fresh_at now account.expires_at) ⇒ Reason.stale_account_state
      ∷ not (fresh_at now market.expires_at) ⇒ Reason.stale_orderbook
      ∷ not market.funding_fresh ⇒ Reason.stale_funding
      ∷ (not (upper signal.symbol ≟ upper market.symbol)
          || not (upper signal.symbol ≟ upper specs.symbol))
        ⇒ Reason.symbol_runtime_mismatch
      ∷ (not (fresh_at now specs.expires_at)
          || not (specs.category ≟ "linear")
          || not (specs.status ≟ "Trading"))
        ⇒ Reason.bad_instrument_specs
      ∷ any not_positive (
          specs.tick_size ∷ specs.qty_step ∷ specs.min_qty ∷ specs.min_notional ∷ specs.max_leverage
          ∷ [])
        ⇒ Reason.invalid_instrument_specs
      ∷ (any not_finite (
            market.bid1 ∷ market.ask1 ∷ market.spread_bps ∷ market.depth_usdt ∷ market.funding_bps
            ∷ [])
          || not_positive market.bid1
          || not_positive market.ask1
          || market.ask1 <? market.bid1
          || not_nonnegative market.spread_bps
          || not_nonnegative market.depth_usdt)
        ⇒ Reason.invalid_market_snapshot
      ∷ not_positive account.equity_usdt ⇒ Reason.invalid_account_equity
      ∷ not_nonnegative account.available_balance_usdt ⇒ Reason.invalid_account_balance
      ∷ []

  unfoldable pub lineage_checks : SignalCandidate W → List (Guard Reason)
  lineage_checks signal =
      (is_none signal.stop_price || not (truthy? signal.invalidator))
        ⇒ Reason.missing_stop_or_invalidator
      ∷ not (truthy signal.feature_hash) ⇒ Reason.missing_feature_hash
      ∷ (not (truthy? signal.regime_id)
          || not (truthy? signal.feature_id)
          || is_empty signal.required_data)
        ⇒ Reason.incomplete_signal_lineage
      ∷ (is_empty signal.evidence && not signal.shadow_only) ⇒ Reason.missing_strategy_evidence
      ∷ (signal.entry_price <=? nought) ⇒ Reason.invalid_entry_price
      ∷ (signal.expected_gross_edge_bps <=? nought) ⇒ Reason.missing_or_nonpositive_gross_edge
      ∷ []

  -- the checks that are made only where there is a stop
  unfoldable pub stop_checks : SignalCandidate W → List (Guard Reason)
  stop_checks signal = elim signal.stop_price [
    | none ↦ []
    | some stop ↦
        (stop <=? nought || stop ==? signal.entry_price) ⇒ Reason.invalid_stop_price
        ∷ (if is_buy signal.side
            then (signal.entry_price <=? stop) ⇒ Reason.invalid_buy_stop_direction
            else (stop <=? signal.entry_price) ⇒ Reason.invalid_sell_stop_direction)
        ∷ []
  ]

  unfoldable pub policy_checks :
      SignalCandidate W → AccountSnapshot W → MarketSnapshot W → RiskConfig W → List (Guard Reason)
  policy_checks signal account market cfg =
      let strategy_name = lower signal.strategy in
      is_in strategy_name forbidden_product_strategies ⇒ Reason.strategy_forbidden_product_scope
      ∷ (signal.shadow_only
          || leb account.phase 1 && is_in strategy_name shadow_only_strategies_phase_0_1)
        ⇒ Reason.strategy_shadow_only
      ∷ (cfg.max_spread_bps <? market.spread_bps) ⇒ Reason.spread_too_wide
      ∷ (market.depth_usdt <? cfg.min_depth_usdt) ⇒ Reason.depth_too_low
      ∷ account.position_mismatch ⇒ Reason.position_mismatch
      ∷ (account.daily_loss_hit || account.weekly_loss_hit) ⇒ Reason.loss_limit_hit
      ∷ []

  unfoldable pub daily_remaining_risk : AccountSnapshot W → RiskConfig W → W
  daily_remaining_risk account cfg =
      account.equity_usdt ⊗ cfg.max_daily_loss_pct ⊖ account.realized_negative_today_usdt

  unfoldable pub weekly_remaining_risk : AccountSnapshot W → RiskConfig W → W
  weekly_remaining_risk account cfg =
      account.equity_usdt ⊗ cfg.max_weekly_loss_pct ⊖ account.realized_negative_week_usdt

  unfoldable pub loss_checks : AccountSnapshot W → RiskConfig W → List (Guard Reason)
  unfolding daily_remaining_risk weekly_remaining_risk
  loss_checks account cfg =
      (daily_remaining_risk account cfg <=? nought) ⇒ Reason.daily_remaining_risk_exhausted
      ∷ (weekly_remaining_risk account cfg <=? nought) ⇒ Reason.weekly_remaining_risk_exhausted
      ∷ []

  unfoldable pub ml_checks : MlVerdict W → List (Guard Reason)
  ml_checks ml =
      (ml.required && ml.block)
        ⇒ Reason.ml_block (if truthy ml.reason then ml.reason else verdict_value ml.verdict)
      ∷ (ml.required && is_unavailable ml.verdict) ⇒ Reason.ml_unavailable_fail_closed
      ∷ []

  -- the caps on the size, up to the first on the whole portfolio
  unfoldable pub size_checks :
      AccountSnapshot W → InstrumentSpec W → RiskConfig W → SizingResult W → List (Guard Reason)
  unfolding daily_remaining_risk weekly_remaining_risk
  size_checks account specs cfg sizing =
      (sizing.qty <? specs.min_qty || sizing.notional <? specs.min_notional)
        ⇒ Reason.min_qty_or_notional
      ∷ (sizing.risk_budget <? sizing.max_loss_if_stop) ⇒ Reason.risk_budget_exceeded
      ∷ (daily_remaining_risk account cfg <? sizing.max_loss_if_stop)
        ⇒ Reason.daily_remaining_risk_exceeded
      ∷ (weekly_remaining_risk account cfg <? sizing.max_loss_if_stop)
        ⇒ Reason.weekly_remaining_risk_exceeded
      ∷ (cfg.max_effective_leverage <? sizing.effective_leverage) ⇒ Reason.leverage_cap
      ∷ (specs.max_leverage <? sizing.effective_leverage) ⇒ Reason.instrument_max_leverage_cap
      ∷ []

  -- `portfolio_leverage` is `portfolio_abs_after / max(account.equity_usdt, 1e-9)`
  unfoldable pub portfolio_checks : RiskConfig W → W → W → List (Guard Reason)
  portfolio_checks cfg portfolio_abs_after portfolio_leverage =
      (cfg.max_effective_leverage <? portfolio_leverage) ⇒ Reason.leverage_cap
      ∷ elim cfg.max_portfolio_abs_notional_usdt [
        | none ↦ []
        | some cap ↦ (cap <? portfolio_abs_after) ⇒ Reason.portfolio_abs_exposure_cap ∷ []
      ]

  unfoldable pub beta_cap : AccountSnapshot W → RiskConfig W → W
  beta_cap account cfg = elim cfg.max_beta_adjusted_exposure_usdt [
    | none ↦ account.equity_usdt ⊗ cfg.max_effective_leverage
    | some cap ↦ cap
  ]

  unfoldable pub reserve_checks :
      AccountSnapshot W → RiskConfig W → SizingResult W → List (Guard Reason)
  unfolding beta_cap
  reserve_checks account cfg sizing =
      (beta_cap account cfg <? f.abs account.beta_adjusted_exposure_usdt ⊕ sizing.notional)
        ⇒ Reason.beta_adjusted_exposure_cap
      ∷ (sizing.reserve_cash_after_pct <? cfg.reserve_cash_pct) ⇒ Reason.reserve_cash_violation
      ∷ (sizing.liquidation_distance_pct
          <? py_max cfg.min_liq_distance_pct (f.lit 25 1 ⊗ sizing.stop_distance_pct))
        ⇒ Reason.liq_distance_too_close
      ∷ (sizing.expected_net_edge_bps <=? cfg.min_net_edge_bps) ⇒ Reason.no_net_edge_after_costs
      ∷ []
