-- ===== src/Strategies/Laws/Permitted.antt =====
-- Which candidates may be proposed in a regime.
use mathlib.Core.Path.{subst, sym}
use one_year_billion.Common.{
  ℕ, not, if◌then◌else◌, ◌≡◌, refl, ◌⊎◌, inl, inr, true, false, Bool, Bool-cases, List, [], ◌∷◌,
  String, All, All-append, Option-cases, lower, Memᴰ,
}
use one_year_billion.Common.Float.{Float, ◌<=?◌, ◌⊕◌}
use one_year_billion.Domain.{
  SignalCandidate, MarketSnapshot, AccountSnapshot, RegimeDecision, symbol_upper, Regime,
}
use one_year_billion.Regime.Priority.{is_immediate, same_regime}
use one_year_billion.Regime.Classifier.{Reason}
use one_year_billion.Regime.Permission.{strategy_allowed, allows_breakout}
use one_year_billion.Regime.Laws.Admission.{immediate_blocks}
use one_year_billion.Strategies.Base.{Ids, HashPayload}
use one_year_billion.Strategies.Breakout.{propose_breakout, breakout_candidate, confirmed}
use one_year_billion.Strategies.MicroGrid.{given_above, propose_micro_grid, grid_candidate}
use one_year_billion.Strategies.Orchestrator.{
  Strategy, shadow_only_of, live_candidates, shadow_candidates, live_strategies, shadow_strategies,
  propose,
}

module _ {W : Type 0} where
  pub All-Mem :
      (P : SignalCandidate W → Type 0) {c : SignalCandidate W} (cs : List (SignalCandidate W))
      → All P cs
      → Memᴰ c cs
      → P c
  All-Mem P [] a m = elim m [ ]
  All-Mem P (c ∷ cs) (p, ps) (Memᴰ.head e) = subst P (sym e) p
  All-Mem P (c ∷ cs) (p, ps) (Memᴰ.tail m) = All-Mem P cs ps m

  pub All-unless :
      (P : SignalCandidate W → Type 0) (b : Bool) (cs : List (SignalCandidate W))
      → All P cs
      → All P (if b then [] else cs)
  All-unless P true cs a = tt
  All-unless P false cs a = a

  abbrev pub IsShadow : SignalCandidate W → Type 0
  IsShadow c = c.shadow_only ≡ true

  shadow_only_of-IsShadow : (cs : List (SignalCandidate W)) → All IsShadow (shadow_only_of cs)
  unfolding shadow_only_of
  shadow_only_of-IsShadow [] = tt
  shadow_only_of-IsShadow (c ∷ cs) = elim (Bool-cases c.shadow_only) [
    | inl h ↦ rw h (refl, shadow_only_of-IsShadow cs)
    | inr h ↦ rw h (shadow_only_of-IsShadow cs)
  ]

  shadow_candidates-IsShadow :
      (market : MarketSnapshot W) (account : AccountSnapshot W) (regime : RegimeDecision W Reason)
      (ss : List (Strategy W))
      → All IsShadow (shadow_candidates market account regime ss)
  unfolding shadow_candidates
  shadow_candidates-IsShadow market account regime [] = tt
  shadow_candidates-IsShadow market account regime (s ∷ ss) =
      All-append IsShadow (shadow_only_of (s.propose market account regime)) _
        (shadow_only_of-IsShadow (s.propose market account regime))
        (shadow_candidates-IsShadow market account regime ss)

module _ {W : Type 0} (market : MarketSnapshot W) (account : AccountSnapshot W)
    (regime : RegimeDecision W Reason) where
  -- for observation only, or allowed
  abbrev IsPermitted : SignalCandidate W → Type 0
  IsPermitted c =
      (c.shadow_only ≡ true) ⊎ ((strategy_allowed c.strategy regime.regime account.phase).0 ≡ true)

  named-IsPermitted :
      (name : String) (cs : List (SignalCandidate W))
      → (strategy_allowed name regime.regime account.phase).0 ≡ true
      → All (λ c. c.strategy ≡ name) cs
      → All IsPermitted cs
  named-IsPermitted name [] h a = tt
  named-IsPermitted name (c ∷ cs) h (e, es) = (inr (rw e h), named-IsPermitted name cs h es)

  IsShadow-IsPermitted : (cs : List (SignalCandidate W)) → All IsShadow cs → All IsPermitted cs
  IsShadow-IsPermitted [] a = tt
  IsShadow-IsPermitted (c ∷ cs) (p, ps) = (inl p, IsShadow-IsPermitted cs ps)

  live-IsPermitted :
      (ss : List (Strategy W))
      → All (λ s. All (λ c. c.strategy ≡ s.name) (s.propose market account regime)) ss
      → All IsPermitted (live_candidates market account regime ss)
  unfolding live_candidates
  live-IsPermitted [] a = tt
  live-IsPermitted (s ∷ ss) (n, ns) =
      elim (Bool-cases (strategy_allowed s.name regime.regime account.phase).0) [
        | inl h ↦ rw h (
            All-append IsPermitted (s.propose market account regime) _
              (named-IsPermitted s.name (s.propose market account regime) h n)
              (live-IsPermitted ss ns))
        | inr h ↦ rw h (live-IsPermitted ss ns)
      ]

module _ {W : Type 0} ⦃f : Float W⦄ (hash_payload : HashPayload W) (now : ℕ) (ids : String → Ids)
    (include_shadow : Bool) (market : MarketSnapshot W) (account : AccountSnapshot W) where
  none_live :
      (regime : RegimeDecision W Reason)
      → is_immediate regime.regime ≡ true
      → live_candidates market account regime (live_strategies hash_payload now ids) ≡ []
  unfolding live_candidates live_strategies lower
  none_live regime h =
      rw
        (
          immediate_blocks "breakout" regime.regime account.phase refl h,
          immediate_blocks "micro_grid" regime.regime account.phase refl h,
        )
        refl

  -- In DE_RISK, NO_TRADE, NEWS_RISK and LIQUIDATION every candidate is one for observation only.
  pub immediate_proposes-IsShadow :
      (regime : RegimeDecision W Reason)
      → is_immediate regime.regime ≡ true
      → All IsShadow (propose hash_payload now ids include_shadow market account regime)
  unfolding propose
  immediate_proposes-IsShadow regime h = rw (none_live regime h) (
      shadow_candidates-IsShadow market account regime
        (shadow_strategies hash_payload now ids include_shadow))

  breakout_name :
      (regime : RegimeDecision W Reason)
      → All
          (λ c. c.strategy ≡ "breakout")
          (propose_breakout hash_payload market account regime (ids "breakout"))
  unfolding propose_breakout breakout_candidate symbol_upper
  breakout_name regime =
      All-unless _ (not (allows_breakout regime.regime)) _
        (All-unless _ (not (confirmed market)) _ (refl, tt))

  grid_name :
      (regime : RegimeDecision W Reason)
      → All
          (λ c. c.strategy ≡ "micro_grid")
          (propose_micro_grid hash_payload market account regime (ids "micro_grid"))
  unfolding propose_micro_grid grid_candidate symbol_upper
  grid_name regime =
      All-unless _ (not (same_regime regime.regime Regime.range)) _
        (elim (Option-cases market.range_width_bps) [
          | inl e ↦ rw e tt
          | inr (w, e) ↦ rw e (
              All-unless _ (w <=? market.spread_bps ⊕ f.lit 80 1) _ (
                All-unless _ (given_above (f.lit 22 0) market.adx) _
                  (All-unless _ (not market.funding_sanity) _ (refl, tt))))
        ])

  -- A candidate is for observation only, or comes from a strategy that the permission matrix allows
  -- in the regime and the account's phase.
  pub proposes_permitted :
      (regime : RegimeDecision W Reason)
      → All
          (λ c.
            (c.shadow_only ≡ true)
            ⊎ ((strategy_allowed c.strategy regime.regime account.phase).0 ≡ true))
          (propose hash_payload now ids include_shadow market account regime)
  unfolding propose live_strategies
  proposes_permitted regime =
      let strategies = live_strategies hash_payload now ids in
      let shadows = shadow_strategies hash_payload now ids include_shadow in
      All-append (IsPermitted market account regime)
        (live_candidates market account regime strategies) _
        (live-IsPermitted market account regime strategies
          (breakout_name regime, (grid_name regime, tt)))
        (IsShadow-IsPermitted market account regime _
          (shadow_candidates-IsShadow market account regime shadows))
