-- ===== src/Strategies/CarryShadow.antt =====
-- app/strategies/carry_shadow.py
use one_year_billion.Common.{◌*◌, leb, true, false, not, ◌||◌, some, [], ◌∷◌, if◌then◌else◌, Dict}
use one_year_billion.Common.Float.{Float, ◌<?◌, ◌<=?◌, ◌⊖◌, ◌⊗◌, nought}
use one_year_billion.Domain.{
  Side, SignalCandidate, MarketSnapshot, AccountSnapshot, RegimeDecision, Value, symbol_upper,
}
use one_year_billion.Regime.Priority.{is_immediate}
use one_year_billion.Regime.Classifier.{Reason}
use one_year_billion.Strategies.Base.{Ids, HashPayload, Propose}

module _ {W : Type 0} ⦃f : Float W⦄ where
  abbrev pub edge_after_spread : MarketSnapshot W → W
  edge_after_spread market = f.abs market.funding_bps ⊖ market.spread_bps

  abbrev pub carry_side : MarketSnapshot W → Side
  carry_side market = if nought <? market.funding_bps then Side.sell else Side.buy

  abbrev pub carry_entry : Side → MarketSnapshot W → W
  carry_entry Side.sell market = market.bid1
  carry_entry Side.buy market = market.ask1

  abbrev pub carry_stop_factor : Side → W
  carry_stop_factor Side.sell = f.lit 102 2
  carry_stop_factor Side.buy = f.lit 98 2

  unfoldable pub carry_evidence : MarketSnapshot W → AccountSnapshot W → Dict (Value W)
  carry_evidence market account =
      ("shadow_reason", Value.text "funding_carry_measurement_only")
      ∷ ("funding_bps", Value.amount market.funding_bps)
      ∷ ("spread_bps", Value.amount market.spread_bps)
      ∷ ("rough_edge_after_spread_bps", Value.amount (edge_after_spread market))
      ∷ ("requires_phase_2_plus_for_live", Value.flag true)
      ∷ ("requires_two_leg_hedge_quality_proof", Value.flag true)
      ∷ ("no_live_route_phase_0_1", Value.flag (leb account.phase 1))
      ∷ []

  -- the candidate that it builds
  unfoldable pub carry_candidate :
      HashPayload W
      → MarketSnapshot W
      → AccountSnapshot W
      → RegimeDecision W Reason
      → Ids
      → SignalCandidate W
  carry_candidate hash_payload market account regime ids =
      let side = carry_side market in
      let entry = carry_entry side market in
      let evidence = carry_evidence market account in
      symbol_upper (record {
        signal_id = ids.signal_id;
        strategy = "carry_shadow";
        symbol = market.symbol;
        side = side;
        entry_price = entry;
        stop_price = some (entry ⊗ carry_stop_factor side);
        invalidator = some "funding_sign_flip_or_hedge_quality_fail";
        expected_gross_edge_bps = edge_after_spread market;
        expected_holding_time_sec = 8 * 3600;
        required_data = "funding" ∷ "orderbook" ∷ "fees" ∷ "hedge_quality_shadow" ∷ [];
        regime_id = some regime.regime_id;
        feature_id = some ids.feature_id;
        trace_id = ids.trace_id;
        strategy_version = "1.1.0-total-check";
        feature_hash = hash_payload market.symbol "carry_shadow" evidence;
        evidence = evidence;
        requires_ml = false;
        shadow_only = true;
      })

  unfoldable pub propose_carry_shadow : HashPayload W → Propose W
  propose_carry_shadow hash_payload market account regime ids =
      if is_immediate regime.regime
      then []
      else if not market.funding_fresh || not market.funding_sanity
      then []
      else if edge_after_spread market <=? f.lit 20 1
      then []
      else carry_candidate hash_payload market account regime ids ∷ []
