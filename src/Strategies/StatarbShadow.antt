-- ===== src/Strategies/StatarbShadow.antt =====
-- app/strategies/statarb_shadow.py. The present time is an argument of the scanner.
use one_year_billion.Common.{
  ℕ, ◌*◌, leb, true, false, not, ◌&&◌, ◌||◌, none, some, [], ◌∷◌, if◌then◌else◌, Dict,
}
use one_year_billion.Common.Float.{Float, ◌<?◌, ◌<=?◌, ◌⊕◌, ◌⊗◌, py_max}
use one_year_billion.Domain.{
  Regime, Side, SignalCandidate, MarketSnapshot, AccountSnapshot, RegimeDecision, Value,
  symbol_upper, fresh_at, mid,
}
use one_year_billion.Regime.Priority.{same_regime}
use one_year_billion.Regime.Classifier.{Reason}
use one_year_billion.Strategies.Base.{Ids, HashPayload, Propose}

module _ {W : Type 0} ⦃f : Float W⦄ where
  unfoldable pub statarb_evidence : MarketSnapshot W → AccountSnapshot W → W → W → Dict (Value W)
  statarb_evidence market account range_width_bps adx =
      ("shadow_reason", Value.text "pair_statarb_context_collection_only")
      ∷ ("range_width_bps", Value.amount range_width_bps)
      ∷ ("adx", Value.amount adx)
      ∷ ("spread_bps", Value.amount market.spread_bps)
      ∷ ("requires_pair_beta_corr_zscore_inputs", Value.flag true)
      ∷ ("requires_two_leg_assembly_before_live", Value.flag true)
      ∷ ("no_live_route_phase_0_1", Value.flag (leb account.phase 1))
      ∷ []

  -- the candidate that it builds
  unfoldable pub statarb_candidate :
      HashPayload W
      → W
      → W
      → MarketSnapshot W
      → AccountSnapshot W
      → RegimeDecision W Reason
      → Ids
      → SignalCandidate W
  statarb_candidate hash_payload range_width_bps adx market account regime ids =
      let entry = mid market in
      let evidence = statarb_evidence market account range_width_bps adx in
      symbol_upper (record {
        signal_id = ids.signal_id;
        strategy = "statarb_shadow";
        symbol = market.symbol;
        side = Side.buy;
        entry_price = entry;
        stop_price = some (entry ⊗ f.lit 985 3);
        invalidator = some "corr_beta_break_or_zscore_stop";
        expected_gross_edge_bps = py_max (f.quot range_width_bps (f.lit 40 1)) (f.lit 10 1);
        expected_holding_time_sec = 2 * 3600;
        required_data = "pair_beta" ∷ "correlation" ∷ "zscore" ∷ "orderbook" ∷ "funding" ∷ [];
        regime_id = some regime.regime_id;
        feature_id = some ids.feature_id;
        trace_id = ids.trace_id;
        strategy_version = "1.1.0-total-check";
        feature_hash = hash_payload market.symbol "statarb_shadow" evidence;
        evidence = evidence;
        requires_ml = false;
        shadow_only = true;
      })

  -- the tests of a market's range and trend strength
  unfoldable pub statarb_if_wide : HashPayload W → W → W → Propose W
  statarb_if_wide hash_payload range_width_bps adx market account regime ids =
      if f.lit 18 0 <? adx
      then []
      else if range_width_bps <=? py_max (f.lit 120 1) (market.spread_bps ⊕ f.lit 80 1)
      then []
      else statarb_candidate hash_payload range_width_bps adx market account regime ids ∷ []

  unfoldable pub propose_statarb_shadow : HashPayload W → ℕ → Propose W
  propose_statarb_shadow hash_payload now market account regime ids =
      if leb account.phase 1
        && not (same_regime regime.regime Regime.range || same_regime regime.regime Regime.low_vol)
      then []
      else if not (fresh_at now market.expires_at) || not market.funding_fresh
      then []
      else elim market.range_width_bps [
        | none ↦ []
        | some range_width_bps ↦ elim market.adx [
          | none ↦ []
          | some adx ↦ statarb_if_wide hash_payload range_width_bps adx market account regime ids
        ]
      ]
