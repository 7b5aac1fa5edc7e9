-- ===== src/Strategies/MicroGrid.antt =====
-- app/strategies/micro_grid.py
use one_year_billion.Common.{
  Bool, true, false, not, Option, none, some, [], ◌∷◌, if◌then◌else◌, Dict,
}
use one_year_billion.Common.Float.{Float, ◌<?◌, ◌<=?◌, ◌⊕◌, ◌⊗◌}
use one_year_billion.Domain.{
  Regime, Side, SignalCandidate, MarketSnapshot, AccountSnapshot, RegimeDecision, Value,
  symbol_upper,
}
use one_year_billion.Regime.Priority.{same_regime}
use one_year_billion.Regime.Classifier.{Reason}
use one_year_billion.Strategies.Base.{Ids, HashPayload, Propose}

module _ {W : Type 0} ⦃f : Float W⦄ where
  -- `x is not None and x > bound`
  abbrev pub given_above : W → Option W → Bool
  given_above bound none = false
  given_above bound (some x) = bound <? x

  unfoldable pub grid_evidence : MarketSnapshot W → W → W → Dict (Value W)
  grid_evidence market range_width_bps stop =
      ("range_width_bps", Value.amount range_width_bps)
      ∷ ("spread_bps", Value.amount market.spread_bps)
      ∷ ("max_inventory", Value.count 1)
      ∷ ("hard_stop", Value.amount stop)
      ∷ ("no_add_after_invalidation", Value.flag true)
      ∷ ("invalidation", Value.text "range_break_or_btc_impulse")
      ∷ ("funding_sanity_ok", Value.flag market.funding_sanity)
      ∷ ("adx", Value.optional market.adx)
      ∷ []

  -- the candidate that it builds
  unfoldable pub grid_candidate :
      HashPayload W
      → W
      → MarketSnapshot W
      → AccountSnapshot W
      → RegimeDecision W Reason
      → Ids
      → SignalCandidate W
  grid_candidate hash_payload range_width_bps market account regime ids =
      let entry = market.bid1 in
      let stop = entry ⊗ f.lit 985 3 in
      let evidence = grid_evidence market range_width_bps stop in
      symbol_upper (record {
        signal_id = ids.signal_id;
        strategy = "micro_grid";
        symbol = market.symbol;
        side = Side.buy;
        entry_price = entry;
        stop_price = some stop;
        invalidator = some "range_break_or_btc_impulse";
        expected_gross_edge_bps = f.lit 180 1;
        expected_holding_time_sec = 1800;
        required_data = "range_bounds" ∷ "closed_candles" ∷ "adx" ∷ "orderbook" ∷ "funding" ∷ [];
        regime_id = some regime.regime_id;
        feature_id = some ids.feature_id;
        trace_id = ids.trace_id;
        strategy_version = "1.1.0-total-check";
        feature_hash = hash_payload market.symbol "micro_grid" evidence;
        evidence = evidence;
        requires_ml = false;
        shadow_only = false;
      })

  unfoldable pub propose_micro_grid : HashPayload W → Propose W
  propose_micro_grid hash_payload market account regime ids =
      if not (same_regime regime.regime Regime.range) then [] else elim market.range_width_bps [
        | none ↦ []
        | some range_width_bps ↦
            if range_width_bps <=? market.spread_bps ⊕ f.lit 80 1
            then []
            else if given_above (f.lit 22 0) market.adx
            then []
            else if not market.funding_sanity
            then []
            else grid_candidate hash_payload range_width_bps market account regime ids ∷ []
      ]
