-- ===== src/Regime/Laws/Safety.antt =====
-- No regime of the classifier is riskier than what it sees.
use one_year_billion.Common.{
  ℕ, ◌≤◌, ◌≡◌, refl, sym, ap, ◌∙◌, ◌⊎◌, Bool, true, false, ◌||◌, Bool-cases, Option, none, some,
  List, [], ◌∷◌, Memᴰ, is_empty, inl, inr, arith, get, String,
}
use one_year_billion.Common.Float.{Float}
use one_year_billion.Domain.{AccountSnapshot, MarketSnapshot, Regime}
use one_year_billion.Regime.Priority.{
  priority_index, safer_regime, safer_regime-le_first, safer_regime-le_any,
}
use one_year_billion.Regime.Classifier.{
  RegimeClassifier, Memory, Signpost, RawCandidates, follow, or_no_trade, safest, is_stale,
  signposts, raw_candidates, await_riskier, settle, apply_cooldown_and_hysteresis, begin_cooldown,
  classify,
}

module _ (bars cooldown_seconds : ℕ) (symbol : String) (candidate : Regime) where
  await_riskier-le :
      (previous : Regime) (m : Memory)
      → priority_index (await_riskier bars cooldown_seconds symbol candidate previous m).regime
        ≤ priority_index candidate
  unfolding await_riskier safer_regime
  await_riskier-le previous m = ground arith

  settle-le :
      (previous : Option Regime) (m : Memory)
      → priority_index (settle bars cooldown_seconds symbol candidate previous m).regime
        ≤ priority_index candidate
  unfolding settle
  settle-le none m = omega arith
  settle-le (some previous) m = ground (arith, await_riskier-le previous m)

  -- What the memory makes of a candidate is at least as safe as the candidate.
  pub settled_never_riskier :
      (now : ℕ) (m : Memory)
      → priority_index
          (apply_cooldown_and_hysteresis bars cooldown_seconds symbol candidate now m).regime
        ≤ priority_index candidate
  unfolding apply_cooldown_and_hysteresis
  settled_never_riskier now m =
      let begun = begin_cooldown bars cooldown_seconds symbol candidate now m in
      ground (arith, settle-le (get symbol begun.last_regime) begun)

module _ {W : Type 0} where
  followed-Mem :
      {p : Signpost W} (ps : List (Signpost W)) (c : W)
      → Memᴰ p ps
      → p.holds ≡ true
      → Memᴰ p.regime (follow ps c).candidates
  unfolding follow
  followed-Mem [] c m h = elim m [ ]
  followed-Mem (q ∷ ps) c (Memᴰ.head e) h =
      rw (sym (ap (λ s. s.holds) e) ∙ h) (Memᴰ.head (ap (λ s. s.regime) e))
  followed-Mem (q ∷ ps) c (Memᴰ.tail m) h = elim (Bool-cases q.holds) [
    | inl e ↦ rw e (Memᴰ.tail (followed-Mem ps (q.confidence c) m h))
    | inr e ↦ rw e (followed-Mem ps c m h)
  ]

safest-le :
    {r : Regime} (rs : List Regime) → Memᴰ r rs → priority_index (safest rs) ≤ priority_index r
safest-le [] m = elim m [ ]
safest-le (s ∷ rs) (Memᴰ.head e) = ground (arith, safer_regime-le_first s rs, e)
safest-le (s ∷ rs) (Memᴰ.tail m) = safer_regime-le_any s rs m

not_empty_of-Mem : {r : Regime} (rs : List Regime) → Memᴰ r rs → is_empty rs ≡ false
not_empty_of-Mem [] m = elim m [ ]
not_empty_of-Mem (s ∷ rs) m = refl

or_no_trade-Mem :
    {W : Type 0} {r : Regime} (raw : RawCandidates W)
    → Memᴰ r raw.candidates
    → Memᴰ r (or_no_trade raw).candidates
or_no_trade-Mem raw m = rw (not_empty_of-Mem raw.candidates m) m

at_most_0 : (r : Regime) → priority_index r ≤ 0 → r ≡ Regime.de_risk
at_most_0 Regime.de_risk h = refl
at_most_0 Regime.no_trade h = absurd (omega (arith, h))
at_most_0 Regime.news_risk h = absurd (omega (arith, h))
at_most_0 Regime.liquidation h = absurd (omega (arith, h))
at_most_0 Regime.high_vol h = absurd (omega (arith, h))
at_most_0 Regime.trend_up h = absurd (omega (arith, h))
at_most_0 Regime.trend_down h = absurd (omega (arith, h))
at_most_0 Regime.range h = absurd (omega (arith, h))
at_most_0 Regime.low_vol h = absurd (omega (arith, h))

at_most_1 : (r : Regime) → priority_index r ≤ 1 → (r ≡ Regime.de_risk) ⊎ (r ≡ Regime.no_trade)
at_most_1 Regime.de_risk h = inl refl
at_most_1 Regime.no_trade h = inr refl
at_most_1 Regime.news_risk h = absurd (omega (arith, h))
at_most_1 Regime.liquidation h = absurd (omega (arith, h))
at_most_1 Regime.high_vol h = absurd (omega (arith, h))
at_most_1 Regime.trend_up h = absurd (omega (arith, h))
at_most_1 Regime.trend_down h = absurd (omega (arith, h))
at_most_1 Regime.range h = absurd (omega (arith, h))
at_most_1 Regime.low_vol h = absurd (omega (arith, h))

module _ {W : Type 0} ⦃f : Float W⦄ (classifier : RegimeClassifier) (now : ℕ)
    (market : MarketSnapshot W) (account : AccountSnapshot W) (kill_switch news_risk : Bool)
    (regime_id trace_id : String) where
  abbrev pub regime_now : Regime
  regime_now =
      (classify classifier now market account kill_switch news_risk regime_id trace_id).0.regime

  -- Whatever the classifier remembers, the regime it answers is at least as safe, in the order of
  -- `PRIORITY`, as that of every rule of `_raw_candidates` whose condition holds.
  pub classify_never_riskier :
      (p : Signpost W)
      → Memᴰ p (signposts now market account kill_switch news_risk)
      → p.holds ≡ true
      → priority_index regime_now ≤ priority_index p.regime
  unfolding classify raw_candidates
  classify_never_riskier p m h =
      let rules = signposts now market account kill_switch news_risk in
      let raw = raw_candidates now market account kill_switch news_risk in
      let member =
        or_no_trade-Mem (follow rules (f.lit 5 1)) (followed-Mem rules (f.lit 5 1) m h) in
      omega (
        arith,
        safest-le raw.candidates member,
        settled_never_riskier classifier.hysteresis_bars classifier.cooldown_seconds market.symbol
            (safest raw.candidates) now classifier.memory,
      )

  -- With the kill switch on, or a loss limit hit, the regime is DE_RISK, whatever the market, the
  -- memory and the clock say.
  pub kill_switch_forces_de_risk :
      (kill_switch || account.daily_loss_hit || account.weekly_loss_hit) ≡ true
      → regime_now ≡ Regime.de_risk
  unfolding signposts
  kill_switch_forces_de_risk h = at_most_0 regime_now (classify_never_riskier _ (Memᴰ.head refl) h)

  -- On a stale market, account or funding rate the regime is DE_RISK or NO_TRADE.
  pub stale_data_forbids_trade :
      is_stale now market account ≡ true
      → (regime_now ≡ Regime.de_risk) ⊎ (regime_now ≡ Regime.no_trade)
  unfolding signposts
  stale_data_forbids_trade h =
      at_most_1 regime_now (classify_never_riskier _ (Memᴰ.tail (Memᴰ.tail (Memᴰ.head refl))) h)
