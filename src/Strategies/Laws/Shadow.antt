-- ===== src/Strategies/Laws/Shadow.antt =====
-- No order comes of a candidate for observation.
use mathlib.Core.Bool.{false≢true}
use one_year_billion.Common.{
  ℕ, ◌≡◌, ◌≢◌, refl, sym, ◌∙◌, ◌||◌, true, Bool, none, String, Memᴰ, Result, Pass-at,
  raise_first-Pass, or-false,
}
use one_year_billion.Common.Float.{Float}
use one_year_billion.Domain.{
  SignalCandidate, MarketSnapshot, AccountSnapshot, RiskDecision, OrderIntent,
}
use one_year_billion.Regime.Classifier.{RegimeClassifier, classify}
use one_year_billion.Regime.Laws.Safety.{kill_switch_forces_de_risk}
use one_year_billion.Execution.Idempotency.{get_response}
use one_year_billion.Execution.Router.{Store, refusals, assert_enterable, build_intent}
use one_year_billion.Execution.Router.Laws.Steps.{
  order_key, build_intent_key, build_intent_new, enter_ok,
}
use one_year_billion.Strategies.Base.{Ids, HashPayload}
use one_year_billion.Strategies.Orchestrator.{propose}
use one_year_billion.Strategies.Laws.Permitted.{IsShadow, All-Mem, immediate_proposes-IsShadow}

module _ {W R : Type 0} ⦃f : Float W⦄ (sha256_hex : String → String) (later : ℕ) (id : String)
    (c : SignalCandidate W) (risk : RiskDecision W R) (key : String) (store : Store W) where
  -- A candidate for observation is refused by the router under every key that is new.
  pub shadow_never_entered :
      {r : OrderIntent W × Store W}
      → c.shadow_only ≡ true
      → get_response (order_key key) store ≡ none
      → build_intent sha256_hex later id c risk key store ≢ Result.ok r
  unfolding assert_enterable refusals
  shadow_never_entered shadow new h =
      let truth = build_intent_key sha256_hex later id c risk key store h in
      let entered = sym (build_intent_new sha256_hex later id c risk key store truth new) ∙ h in
      let (checked, _, _, _, _, _) = enter_ok sha256_hex later id c risk key store entered in
      let (live, _) =
        or-false c.shadow_only _
          (Pass-at 1 (refusals later c risk) (raise_first-Pass (refusals later c risk) checked)) in
      false≢true (sym live ∙ shadow)

module _ {W R : Type 0} ⦃f : Float W⦄ (hash_payload : HashPayload W) (ids : String → Ids)
    (sha256_hex : String → String) where
  -- With the kill switch on, or a loss limit hit, none of the candidates that the strategies propose
  -- in the classified regime can become an order under a new key, whatever decision the risk engine
  -- has made on it, at that time or later.
  pub kill_switch_stops_orders :
      (classifier : RegimeClassifier) (now later : ℕ) (market : MarketSnapshot W)
      (account : AccountSnapshot W) (kill_switch news_risk include_shadow : Bool)
      (regime_id trace_id id key : String) (c : SignalCandidate W) (risk : RiskDecision W R)
      (store : Store W) {r : OrderIntent W × Store W}
      → (kill_switch || account.daily_loss_hit || account.weekly_loss_hit) ≡ true
      → Memᴰ c (
          propose hash_payload now ids include_shadow market account
            (classify classifier now market account kill_switch news_risk regime_id trace_id).0)
      → get_response (order_key key) store ≡ none
      → build_intent sha256_hex later id c risk key store ≢ Result.ok r
  kill_switch_stops_orders classifier now later market account kill_switch news_risk include_shadow
        regime_id trace_id id key c risk store hit m new =
      let regime =
        (classify classifier now market account kill_switch news_risk regime_id trace_id).0 in
      let stopped =
        kill_switch_forces_de_risk classifier now market account kill_switch news_risk regime_id
          trace_id hit in
      let shadows =
        immediate_proposes-IsShadow hash_payload now ids include_shadow market account regime
          (rw stopped refl) in
      shadow_never_entered sha256_hex later id c risk key store (All-Mem IsShadow _ shadows m) new
