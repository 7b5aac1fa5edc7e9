-- ===== src/Strategies/Breakout.antt =====
-- app/strategies/breakout.py
use one_year_billion.Common.{
  Bool, true, false, not, ◌&&◌, ◌||◌, some, [], ◌∷◌, ◌++◌, Dict, if◌then◌else◌,
}
use one_year_billion.Common.Float.{Float, ◌<=?◌, ◌⊗◌}
use one_year_billion.Domain.{
  Regime, Side, SignalCandidate, MarketSnapshot, AccountSnapshot, RegimeDecision, Value,
  symbol_upper,
}
use one_year_billion.Regime.Priority.{same_regime}
use one_year_billion.Regime.Permission.{allows_breakout}
use one_year_billion.Regime.Classifier.{Reason}
use one_year_billion.Strategies.Base.{Ids, HashPayload, Propose, regime_value}

-- `all(bool(evidence[k]) for k in boolean_keys)`
unfoldable pub all_flags : {W : Type 0} → Dict (Value W) → Bool
all_flags [] = true
all_flags ((k, Value.flag b) ∷ d) = b && all_flags d
all_flags ((k, _) ∷ d) = all_flags d

abbrev pub breakout_side : Regime → Side
breakout_side r = if same_regime r Regime.trend_down then Side.sell else Side.buy

module _ {W : Type 0} ⦃f : Float W⦄ where
  unfoldable pub breakout_evidence : MarketSnapshot W → Dict (Value W)
  breakout_evidence market =
      ("structure_or_donchian_break", Value.flag (market.structure_break || market.donchian_break))
      ∷ ("volume_z_ok", Value.flag (f.lit 20 1 <=? market.volume_z))
      ∷ ("atr_expansion_ok", Value.flag (market.atr_expansion || f.lit 12 3 <=? market.atr_pct))
      ∷ ("btc_alignment_ok", Value.flag market.btc_aligned)
      ∷ ("oi_sanity_ok", Value.flag market.oi_sanity)
      ∷ ("funding_sanity_ok", Value.flag market.funding_sanity)
      ∷ ("spread_bps", Value.amount market.spread_bps)
      ∷ ("depth_usdt", Value.amount market.depth_usdt)
      ∷ []

  -- the first component of `_confirmed`
  unfoldable pub confirmed : MarketSnapshot W → Bool
  confirmed market = all_flags (breakout_evidence market)

  abbrev pub breakout_entry : Side → MarketSnapshot W → W
  breakout_entry Side.buy market = market.ask1
  breakout_entry Side.sell market = market.bid1

  abbrev pub breakout_stop_factor : Side → W
  breakout_stop_factor Side.buy = f.lit 985 3
  breakout_stop_factor Side.sell = f.lit 1015 3

  -- the candidate that it builds
  unfoldable pub breakout_candidate :
      HashPayload W
      → MarketSnapshot W
      → AccountSnapshot W
      → RegimeDecision W Reason
      → Ids
      → SignalCandidate W
  breakout_candidate hash_payload market account regime ids =
      let side = breakout_side regime.regime in
      let entry = breakout_entry side market in
      let evidence =
        breakout_evidence market
        ++ ("regime", Value.text (regime_value regime.regime))
          ∷ (
            "required_confirmations",
            Value.text "structure/donchian+volume_z+atr_expansion+btc+oi+funding",
          )
          ∷ [] in
      symbol_upper (record {
        signal_id = ids.signal_id;
        strategy = "breakout";
        symbol = market.symbol;
        side = side;
        entry_price = entry;
        stop_price = some (entry ⊗ breakout_stop_factor side);
        invalidator = some "failed_breakout_or_btc_alignment_lost";
        expected_gross_edge_bps = f.lit 350 1;
        expected_holding_time_sec = 3600;
        required_data =
            "closed_candles" ∷ "donchian_or_structure_break" ∷ "volume_z" ∷ "atr_expansion"
            ∷ "orderbook" ∷ "open_interest" ∷ "funding" ∷ "btc_alignment" ∷ [];
        regime_id = some regime.regime_id;
        feature_id = some ids.feature_id;
        trace_id = ids.trace_id;
        strategy_version = "1.1.0-total-check";
        feature_hash = hash_payload market.symbol "breakout" evidence;
        evidence = evidence;
        requires_ml = true;
        shadow_only = false;
      })

  unfoldable pub propose_breakout : HashPayload W → Propose W
  propose_breakout hash_payload market account regime ids =
      if not (allows_breakout regime.regime)
      then []
      else if not (confirmed market)
      then []
      else breakout_candidate hash_payload market account regime ids ∷ []
