-- ===== src/Risk/Sizing.antt =====
-- app/risk_engine/position_sizing.py. What `decimal` computes is `Float.decimal_floor`; a division
-- raises where Python does, at a divisor equal to zero.
pub mod Laws
use one_year_billion.Common.{
  Bool, true, false, not, ◌||◌, Option, none, some, Result, raise_if, ◌>>=◌, ◌>>◌, if◌then◌else◌,
}
use one_year_billion.Common.Float.{
  Float, ◌<?◌, ◌<=?◌, ◌==?◌, ◌⊕◌, ◌⊖◌, ◌⊗◌, nought, nonzero, py_max,
}
use one_year_billion.Domain.{
  SignalCandidate, AccountSnapshot, MarketSnapshot, InstrumentSpec, SizingResult, no_sizing,
}
use one_year_billion.Risk.Cost.{CostModel, round_trip_cost_bps, expected_net_edge_bps}

-- `ValueError` of `floor_to_step`, an exception of `decimal`, and `ZeroDivisionError`
pub data SizingError : Type 0 where
  step_must_be_positive decimal_error zero_division : SizingError

module _ {W : Type 0} ⦃f : Float W⦄ where
  -- `x / y`
  unfoldable pub divide : W → W → Result SizingError W
  divide x y = do raise_if (y ==? nought) SizingError.zero_division; Result.ok (f.quot x y)

  abbrev or_raise : Option W → Result SizingError W
  or_raise none = Result.raised SizingError.decimal_error
  or_raise (some x) = Result.ok x

  unfoldable pub floor_to_step : W → W → Result SizingError W
  floor_to_step value step = do
    raise_if (step <=? nought) SizingError.step_must_be_positive
    or_raise (f.decimal_floor value step)

  -- `float(signal.stop_price or 0)`
  abbrev pub stop_or_zero : Option W → W
  stop_or_zero none = nought
  stop_or_zero (some x) = if nonzero x then x else nought

  -- the distance to liquidation when the exchange gives no price for it
  unfoldable pub liquidation_distance : W → Result SizingError W
  unfolding divide
  liquidation_distance leverage =
      if nought <? leverage
      then (do
        room ← divide (f.lit 1 0) (py_max leverage (f.lit 1 9))
        Result.ok (py_max (room ⊖ f.lit 1 2) nought))
      else Result.ok (f.lit 10 1)

  -- the sizing of a signal whose entry price and stop distance are positive
  unfoldable pub size_position :
      SignalCandidate W
      → AccountSnapshot W
      → MarketSnapshot W
      → InstrumentSpec W
      → W
      → W
      → CostModel W
      → W
      → Result SizingError (SizingResult W)
  unfolding floor_to_step liquidation_distance divide round_trip_cost_bps expected_net_edge_bps
  size_position signal account market specs risk_pct max_effective_leverage cost_model
        stop_distance_abs =
      do
        let entry = signal.entry_price
        let risk_budget = account.equity_usdt ⊗ risk_pct
        qty_raw ← divide risk_budget stop_distance_abs
        qty ← floor_to_step qty_raw specs.qty_step
        let notional = qty ⊗ entry
        cost_rate ←
            divide
              (round_trip_cost_bps cost_model market.spread_bps false market.funding_bps nought)
              (f.lit 10000 0)
        let estimated_exit_costs = notional ⊗ cost_rate
        let max_loss_if_stop = qty ⊗ stop_distance_abs ⊕ estimated_exit_costs
        let total_abs_notional_after = account.portfolio_abs_notional_usdt ⊕ notional
        effective_leverage ←
            divide total_abs_notional_after (py_max account.equity_usdt (f.lit 1 9))
        estimated_initial_margin ← divide notional (py_max max_effective_leverage (f.lit 1 9))
        reserve ←
            divide
              (account.available_balance_usdt ⊖ estimated_exit_costs ⊖ estimated_initial_margin)
              (py_max account.equity_usdt (f.lit 1 9))
        stop_distance_pct ← divide stop_distance_abs entry
        liquidation_distance_pct ← liquidation_distance effective_leverage
        Result.ok (record {
          qty = qty;
          notional = notional;
          risk_budget = risk_budget;
          stop_distance_abs = stop_distance_abs;
          stop_distance_pct = stop_distance_pct;
          max_loss_if_stop = max_loss_if_stop;
          effective_leverage = effective_leverage;
          reserve_cash_after_pct = py_max reserve nought;
          liquidation_distance_pct = liquidation_distance_pct;
          expected_net_edge_bps =
              expected_net_edge_bps cost_model signal.expected_gross_edge_bps market.spread_bps
                false market.funding_bps nought;
        })

  -- The parameters `reserve_cash_pct` and `min_liq_distance_pct` of the source are not read by it.
  unfoldable pub compute_sizing_after_rounding :
      SignalCandidate W
      → AccountSnapshot W
      → MarketSnapshot W
      → InstrumentSpec W
      → W
      → W
      → CostModel W
      → Result SizingError (SizingResult W)
  compute_sizing_after_rounding signal account market specs risk_pct max_effective_leverage
        cost_model =
      let stop_distance_abs = f.abs (signal.entry_price ⊖ stop_or_zero signal.stop_price) in
      if signal.entry_price <=? nought || stop_distance_abs <=? nought
      then Result.ok (no_sizing (account.equity_usdt ⊗ risk_pct))
      else size_position signal account market specs risk_pct max_effective_leverage cost_model
          stop_distance_abs
