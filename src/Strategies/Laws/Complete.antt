-- ===== src/Strategies/Laws/Complete.antt =====
-- The candidates carry what the risk engine asks for.
use one_year_billion.Common.{
  ℕ, ◌≡◌, refl, not, ◌||◌, true, false, Bool, Bool-cases, List, [], ◌∷◌, ◌++◌, String, All,
  All-append, Option-cases, inl, inr, truthy, fails_at, Dict, if◌then◌else◌, leb, ◌&&◌,
}
use one_year_billion.Common.Float.{Float, ◌<=?◌, ◌<?◌, ◌⊕◌, py_max}
use one_year_billion.Domain.{
  SignalCandidate, MarketSnapshot, AccountSnapshot, RegimeDecision, Value, symbol_upper, Regime,
  fresh_at,
}
use one_year_billion.Risk.Approval.Checks.{lineage_checks}
use one_year_billion.Regime.Priority.{is_immediate, same_regime}
use one_year_billion.Regime.Classifier.{Reason}
use one_year_billion.Regime.Permission.{strategy_allowed, allows_breakout}
use one_year_billion.Strategies.Base.{Ids, HashPayload}
use one_year_billion.Strategies.Breakout.{
  propose_breakout, breakout_candidate, breakout_evidence, confirmed,
}
use one_year_billion.Strategies.MicroGrid.{
  propose_micro_grid, grid_candidate, grid_evidence, given_above,
}
use one_year_billion.Strategies.CarryShadow.{
  propose_carry_shadow, carry_candidate, carry_evidence, edge_after_spread,
}
use one_year_billion.Strategies.StatarbShadow.{
  propose_statarb_shadow, statarb_if_wide, statarb_candidate, statarb_evidence,
}
use one_year_billion.Strategies.Orchestrator.{
  shadow_only_of, live_candidates, shadow_candidates, live_strategies, shadow_strategies, propose,
}
use one_year_billion.Strategies.Laws.Permitted.{All-unless}

module _ {W : Type 0} ⦃f : Float W⦄ where
  -- None of the four checks for what a signal must carry fails.
  pub record IsComplete (c : SignalCandidate W) : Type 0 where
    pub stop_and_invalidator : fails_at 0 (lineage_checks c) ≡ false
    pub hash : fails_at 1 (lineage_checks c) ≡ false
    pub lineage : fails_at 2 (lineage_checks c) ≡ false
    pub evidence : fails_at 3 (lineage_checks c) ≡ false

  shadow_only_of-IsComplete :
      (cs : List (SignalCandidate W)) → All IsComplete cs → All IsComplete (shadow_only_of cs)
  unfolding shadow_only_of
  shadow_only_of-IsComplete [] a = tt
  shadow_only_of-IsComplete (c ∷ cs) (p, ps) = elim (Bool-cases c.shadow_only) [
    | inl h ↦ simp h (p, shadow_only_of-IsComplete cs ps)
    | inr h ↦ rw h (shadow_only_of-IsComplete cs ps)
  ]

  module _ (hash_payload : HashPayload W) (ids : Ids) (market : MarketSnapshot W)
      (account : AccountSnapshot W) (regime : RegimeDecision W Reason)
      (hashed : (s n : String) (e : Dict (Value W)) → truthy (hash_payload s n e) ≡ true)
      (identified : truthy regime.regime_id ≡ true) (featured : truthy ids.feature_id ≡ true) where
    breakout-IsComplete : All IsComplete (propose_breakout hash_payload market account regime ids)
    unfolding propose_breakout breakout_candidate breakout_evidence symbol_upper lineage_checks
    breakout-IsComplete = All-unless _ (not (allows_breakout regime.regime)) _ (
        All-unless _ (not (confirmed market)) _ (
          record {
            stop_and_invalidator = refl;
            hash = rw hashed refl;
            lineage = rw (identified, featured) refl;
            evidence = refl;
          },
          tt,
        ))

    grid-IsComplete : All IsComplete (propose_micro_grid hash_payload market account regime ids)
    unfolding propose_micro_grid grid_candidate grid_evidence symbol_upper lineage_checks
    grid-IsComplete =
        All-unless _ (not (same_regime regime.regime Regime.range)) _
          (elim (Option-cases market.range_width_bps) [
            | inl e ↦ rw e tt
            | inr (w, e) ↦ rw e (
                All-unless _ (w <=? market.spread_bps ⊕ f.lit 80 1) _ (
                  All-unless _ (given_above (f.lit 22 0) market.adx) _ (
                    All-unless _ (not market.funding_sanity) _ (
                      record {
                        stop_and_invalidator = refl;
                        hash = rw hashed refl;
                        lineage = rw (identified, featured) refl;
                        evidence = refl;
                      },
                      tt,
                    ))))
          ])

    carry-IsComplete : All IsComplete (propose_carry_shadow hash_payload market account regime ids)
    unfolding propose_carry_shadow carry_candidate carry_evidence symbol_upper lineage_checks
    carry-IsComplete = All-unless _ (is_immediate regime.regime) _ (
        All-unless _ (not market.funding_fresh || not market.funding_sanity) _ (
          All-unless _ (edge_after_spread market <=? f.lit 20 1) _ (
            record {
              stop_and_invalidator = refl;
              hash = rw hashed refl;
              lineage = rw (identified, featured) refl;
              evidence = refl;
            },
            tt,
          )))

    statarb-IsComplete :
        (now : ℕ)
        → All IsComplete (propose_statarb_shadow hash_payload now market account regime ids)
    unfolding propose_statarb_shadow statarb_if_wide statarb_candidate statarb_evidence symbol_upper
        lineage_checks
    statarb-IsComplete now =
        All-unless _
          (leb account.phase 1
            && not (
                same_regime regime.regime Regime.range || same_regime regime.regime Regime.low_vol))
          _
          (All-unless _ (not (fresh_at now market.expires_at) || not market.funding_fresh) _
            (elim (Option-cases market.range_width_bps) [
              | inl e ↦ rw e tt
              | inr (w, e) ↦ elim (Option-cases market.adx) [
                | inl k ↦ rw (e, k) tt
                | inr (adx, k) ↦
                    rw (e, k)
                      (All-unless _ (f.lit 18 0 <? adx) _ (
                        All-unless _ (w <=? py_max (f.lit 120 1) (market.spread_bps ⊕ f.lit 80 1)) _
                          (
                            record {
                              stop_and_invalidator = refl;
                              hash = rw hashed refl;
                              lineage = rw (identified, featured) refl;
                              evidence = refl;
                            },
                            tt,
                          )))
              ]
            ]))

  unless_not_All :
      (b : Bool) (cs rest : List (SignalCandidate W))
      → All IsComplete cs
      → All IsComplete rest
      → All IsComplete (if b then cs ++ rest else rest)
  unless_not_All true cs rest a r = All-append IsComplete cs rest a r
  unless_not_All false cs rest a r = r

  -- Given a payload hash, a regime's identifier and new identifiers that are not empty, no candidate
  -- that is proposed is rejected by the risk engine for a missing stop or invalidator, a missing
  -- feature hash, an incomplete lineage or missing evidence.
  pub proposed-IsComplete :
      (hash_payload : HashPayload W) (now : ℕ) (ids : String → Ids) (include_shadow : Bool)
      (market : MarketSnapshot W) (account : AccountSnapshot W) (regime : RegimeDecision W Reason)
      → ((s n : String) (e : Dict (Value W)) → truthy (hash_payload s n e) ≡ true)
      → truthy regime.regime_id ≡ true
      → ((name : String) → truthy (ids name).feature_id ≡ true)
      → All IsComplete (propose hash_payload now ids include_shadow market account regime)
  unfolding propose live_candidates live_strategies shadow_candidates shadow_strategies
  proposed-IsComplete hash_payload now ids include_shadow market account regime hashed identified
        featured =
      let grid =
        grid-IsComplete hash_payload (ids "micro_grid") market account regime hashed identified
          (featured "micro_grid") in
      let breakout =
        breakout-IsComplete hash_payload (ids "breakout") market account regime hashed identified
          (featured "breakout") in
      let carry =
        carry-IsComplete hash_payload (ids "carry_shadow") market account regime hashed identified
          (featured "carry_shadow") in
      let statarb =
        statarb-IsComplete hash_payload (ids "statarb_shadow") market account regime hashed
          identified (featured "statarb_shadow") now in
      let phase = account.phase in
      All-append IsComplete _ _
        (unless_not_All (strategy_allowed "breakout" regime.regime phase).0 _ _ breakout
          (unless_not_All (strategy_allowed "micro_grid" regime.regime phase).0 _ [] grid tt))
        (elim (Bool-cases include_shadow) [
          | inl e ↦ rw e (
              All-append IsComplete _ _ (shadow_only_of-IsComplete _ carry)
                (All-append IsComplete _ [] (shadow_only_of-IsComplete _ statarb) tt))
          | inr e ↦ rw e tt
        ])
