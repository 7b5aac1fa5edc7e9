-- ===== src/Regime/Laws/Admission.antt =====
-- What the classifier's regimes keep from trading.
use one_year_billion.Common.{
  ℕ, ◌≡◌, refl, true, false, ◌||◌, Bool, String, lower, is_in, arith, [], ◌∷◌, inl, inr,
}
use one_year_billion.Common.Float.{Float}
use one_year_billion.Domain.{AccountSnapshot, MarketSnapshot, Regime}
use one_year_billion.Regime.Classifier.{RegimeClassifier, classify, is_stale}
use one_year_billion.Regime.Priority.{is_immediate}
use one_year_billion.Regime.Permission.{strategy_allowed}
use one_year_billion.Regime.Laws.Safety.{kill_switch_forces_de_risk, stale_data_forbids_trade}

pub immediate_blocks :
    (strategy : String) (regime : Regime) (phase : ℕ)
    → is_in (lower strategy) ("no_trade" ∷ "de_risk" ∷ []) ≡ false
    → is_immediate regime ≡ true
    → (strategy_allowed strategy regime phase).0 ≡ false
unfolding strategy_allowed
immediate_blocks strategy regime phase other h = ground arith

module _ {W : Type 0} ⦃f : Float W⦄ (classifier : RegimeClassifier) (now : ℕ)
    (market : MarketSnapshot W) (account : AccountSnapshot W) (kill_switch news_risk : Bool)
    (regime_id trace_id : String) (strategy : String) (phase : ℕ) where
  abbrev pub admitted : Bool
  admitted =
      (strategy_allowed strategy
        (classify classifier now market account kill_switch news_risk regime_id trace_id).0.regime
        phase).0

  -- With the kill switch on or a loss limit hit, no strategy but `no_trade` and `de_risk` is allowed
  -- in the regime that the classifier answers.
  pub kill_switch_stops_strategies :
      is_in (lower strategy) ("no_trade" ∷ "de_risk" ∷ []) ≡ false
      → (kill_switch || account.daily_loss_hit || account.weekly_loss_hit) ≡ true
      → admitted ≡ false
  kill_switch_stops_strategies other h = immediate_blocks strategy _ phase other (
      rw
        (kill_switch_forces_de_risk classifier now market account kill_switch news_risk regime_id
          trace_id h)
        refl)

  -- On stale data no strategy but `no_trade` and `de_risk` is allowed in the regime that the
  -- classifier answers.
  pub stale_data_stops_strategies :
      is_in (lower strategy) ("no_trade" ∷ "de_risk" ∷ []) ≡ false
      → is_stale now market account ≡ true
      → admitted ≡ false
  stale_data_stops_strategies other h =
      immediate_blocks strategy _ phase other
        (elim (stale_data_forbids_trade classifier now market account kill_switch news_risk
          regime_id trace_id h) [ inl e ↦ rw e refl | inr e ↦ rw e refl ])
