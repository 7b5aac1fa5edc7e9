-- ===== src/Execution/Router/Laws/Maker.antt =====
-- How an entry reaches the exchange.
use mathlib.Core.Path.{subst}
use one_year_billion.Common.{
  ℕ, ◌≡◌, refl, sym, ◌∙◌, false, none, some, String, get, Result, Bool-cases, inl, inr,
}
use one_year_billion.Common.Float.{Float, nonzero}
use one_year_billion.Domain.{SignalCandidate, RiskDecision, OrderIntent}
use one_year_billion.Execution.Idempotency.{get_response, deterministic_order_link_id}
use one_year_billion.Execution.Router.{Store, build_intent, new_intent}
use one_year_billion.Execution.Payload.{Field, bybit_payload, drop_none}
use one_year_billion.Execution.Router.Laws.Steps.{
  order_key, build_intent_key, build_intent_new, enter_ok,
}

-- A request that adds liquidity only and opens a position, under the link id `link`.
pub record IsMakerEntry {W : Type 0} ⦃f : Float W⦄ (link : String) (o : OrderIntent W)
    : Type 0 where
  pub limit : get "orderType" (bybit_payload o) ≡ some (Field.text "Limit")
  pub post_only : get "timeInForce" (bybit_payload o) ≡ some (Field.text "PostOnly")
  pub opening : get "reduceOnly" (bybit_payload o) ≡ some (Field.flag false)
  pub no_trigger : get "closeOnTrigger" (bybit_payload o) ≡ none
  pub linked : get "orderLinkId" (bybit_payload o) ≡ some (Field.text link)

module _ {W R : Type 0} ⦃f : Float W⦄ (sha256_hex : String → String) where
  new_intent-IsMakerEntry :
      (id : String) (signal : SignalCandidate W) (risk : RiskDecision W R) (key : String)
      → IsMakerEntry
          (deterministic_order_link_id sha256_hex signal.signal_id risk.risk_decision_id "entry" 1)
          (new_intent sha256_hex id signal risk key)
  unfolding bybit_payload drop_none new_intent get
  new_intent-IsMakerEntry id signal risk key = elim (Bool-cases (nonzero signal.entry_price)) [
    | inl e ↦ record {
      limit = refl;
      post_only = rw e refl;
      opening = rw e refl;
      no_trigger = rw e refl;
      linked = rw e refl;
    }
    | inr e ↦ record {
      limit = refl;
      post_only = rw e refl;
      opening = rw e refl;
      no_trigger = rw e refl;
      linked = rw e refl;
    }
  ]

  -- An order that is built for a new key is sent as a post-only limit order that opens a position and
  -- closes nothing, under the link id that its signal and its decision determine.
  pub build_intent-IsMakerEntry :
      (now : ℕ) (id : String) (signal : SignalCandidate W) (risk : RiskDecision W R) (key : String)
      (store : Store W) {r : OrderIntent W × Store W}
      → get_response (order_key key) store ≡ none
      → build_intent sha256_hex now id signal risk key store ≡ Result.ok r
      → IsMakerEntry
          (deterministic_order_link_id sha256_hex signal.signal_id risk.risk_decision_id "entry" 1)
          r.0
  build_intent-IsMakerEntry now id signal risk key store new h =
      let truth = build_intent_key sha256_hex now id signal risk key store h in
      let entered = sym (build_intent_new sha256_hex now id signal risk key store truth new) ∙ h in
      let (_, built, _, _, _, _) = enter_ok sha256_hex now id signal risk key store entered in
      subst
        (IsMakerEntry
          (deterministic_order_link_id sha256_hex signal.signal_id risk.risk_decision_id "entry" 1))
        (sym built) (new_intent-IsMakerEntry id signal risk key)
