-- ===== src/Execution/Router/Laws/Replay.antt =====
-- A key that has been used: the stored answer, and never a second order.
use one_year_billion.Common.{
  ℕ, ◌≡◌, sym, ap, ◌∙◌, ◌≢◌, ◌⊎◌, inl, inr, not, ◌||◌, some, String, ◌≟◌, ≟→≡, ≟_refl, Result,
  Option-cases, raise_if-eq-ok, or-false, not-false, arith, get-put,
}
use text.Mathlib.TextEquality.{eq_iff}
use one_year_billion.Common.Float.{Float}
use one_year_billion.Domain.{SignalCandidate, RiskDecision, OrderIntent}
use one_year_billion.Execution.Idempotency.{get_response}
use one_year_billion.Execution.Router.{
  Store, Stored, RouterError, replay, build_intent, new_intent, assert_cached_request_matches,
}
use one_year_billion.Execution.Router.Laws.Steps.{
  order_key, build_intent_key, build_intent_new, build_intent_known, enter_ok,
}

module _ {W R : Type 0} ⦃f : Float W⦄ (sha256_hex : String → String) where
  replay_same :
      (cached : OrderIntent W) (signal : SignalCandidate W) (risk : RiskDecision W R)
      (store : Store W)
      → cached.signal_id ≡ signal.signal_id
      → cached.risk_decision_id ≡ risk.risk_decision_id
      → replay sha256_hex (Stored.order cached) signal risk store ≡ Result.ok (cached, store)
  unfolding replay assert_cached_request_matches
  replay_same cached signal risk store p q = ground (
    arith,
    eq_iff cached.signal_id signal.signal_id,
    eq_iff cached.risk_decision_id risk.risk_decision_id,
  )

  replay_other :
      (cached : OrderIntent W) (signal : SignalCandidate W) (risk : RiskDecision W R)
      (store : Store W)
      → (cached.signal_id ≢ signal.signal_id) ⊎ (cached.risk_decision_id ≢ risk.risk_decision_id)
      → replay sha256_hex (Stored.order cached) signal risk store
        ≡ Result.raised RouterError.idempotency_key_reused_with_different_request
  unfolding replay assert_cached_request_matches
  replay_other cached signal risk store h = ground (
    arith,
    eq_iff cached.signal_id signal.signal_id,
    eq_iff cached.risk_decision_id risk.risk_decision_id,
  )

  pub replay_ok :
      (cached : Stored W) (signal : SignalCandidate W) (risk : RiskDecision W R) (store : Store W)
      {r : OrderIntent W × Store W}
      → replay sha256_hex cached signal risk store ≡ Result.ok r
      → (cached ≡ Stored.order r.0)
        × (r.1 ≡ store)
        × (r.0.signal_id ≡ signal.signal_id)
        × (r.0.risk_decision_id ≡ risk.risk_decision_id)
  unfolding replay assert_cached_request_matches
  replay_ok (Stored.answer a) signal risk store h = cc
  replay_ok (Stored.order c) signal risk store h =
      let ids =
        raise_if-eq-ok
          (not (c.signal_id ≟ signal.signal_id) || not (c.risk_decision_id ≟ risk.risk_decision_id))
          RouterError.idempotency_key_reused_with_different_request (ground arith) in
      let (p, q) = or-false _ _ ids in
      let p' = ≟→≡ c.signal_id signal.signal_id (not-false _ p) in
      let q' = ≟→≡ c.risk_decision_id risk.risk_decision_id (not-false _ q) in
      (ground arith, ground arith, ground arith, ground arith)

  -- The order that a call returns is in the store that it leaves, under the key of the call, and it is
  -- an order for this signal and this decision.
  stored_after :
      (now : ℕ) (id : String) (signal : SignalCandidate W) (risk : RiskDecision W R) (key : String)
      (store : Store W) {r : OrderIntent W × Store W}
      → build_intent sha256_hex now id signal risk key store ≡ Result.ok r
      → (get_response (order_key key) r.1 ≡ some (Stored.order r.0))
        × (r.0.signal_id ≡ signal.signal_id)
        × (r.0.risk_decision_id ≡ risk.risk_decision_id)
  unfolding get_response new_intent
  stored_after now id signal risk key store {r} h =
      let truth = build_intent_key sha256_hex now id signal risk key store h in
      elim (Option-cases (get_response (order_key key) store)) [
        | inl new ↦
            let entered =
              sym (build_intent_new sha256_hex now id signal risk key store truth new) ∙ h in
            let (_, built, locked, _, _, responses) =
              enter_ok sha256_hex now id signal risk key store entered in
            (
              rw responses (
                  get-put (order_key key) (order_key key) (Stored.order r.0) locked.responses
                  ∙ rw ≟_refl),
              ap (λ (o : OrderIntent W). o.signal_id) built,
              ap (λ (o : OrderIntent W). o.risk_decision_id) built,
            )
        | inr (cached, old) ↦
            let replayed =
              sym (build_intent_known sha256_hex now id signal risk key store cached truth old)
              ∙ h in
            let (same, kept, s, d) = replay_ok cached signal risk store replayed in
            (rw kept (old ∙ ap some same), s, d)
      ]

  -- A call that is repeated with the same key, signal and decision returns the same order and leaves
  -- the store alone, at any later time, also when the decision has expired by then.
  pub build_intent_idempotent :
      (now later : ℕ) (id other_id : String) (signal : SignalCandidate W) (risk : RiskDecision W R)
      (key : String) (store : Store W) {r : OrderIntent W × Store W}
      → build_intent sha256_hex now id signal risk key store ≡ Result.ok r
      → build_intent sha256_hex later other_id signal risk key r.1 ≡ Result.ok r
  build_intent_idempotent now later id other_id signal risk key store {r} h =
      let (kept, s, d) = stored_after now id signal risk key store h in
      let truth = build_intent_key sha256_hex now id signal risk key store h in
      build_intent_known sha256_hex later other_id signal risk key r.1 _ truth kept
      ∙ replay_same r.0 signal risk r.1 s d

  -- A key that was used for one signal and decision is refused for any other.
  pub build_intent_conflict :
      (now later : ℕ) (id other_id : String) (signal other : SignalCandidate W)
      (risk other_risk : RiskDecision W R) (key : String) (store : Store W)
      {r : OrderIntent W × Store W}
      → build_intent sha256_hex now id signal risk key store ≡ Result.ok r
      → (signal.signal_id ≢ other.signal_id) ⊎ (risk.risk_decision_id ≢ other_risk.risk_decision_id)
      → build_intent sha256_hex later other_id other other_risk key r.1
        ≡ Result.raised RouterError.idempotency_key_reused_with_different_request
  build_intent_conflict now later id other_id signal other risk other_risk key store {r} h differ =
      let (kept, s, d) = stored_after now id signal risk key store h in
      let truth = build_intent_key sha256_hex now id signal risk key store h in
      build_intent_known sha256_hex later other_id other other_risk key r.1 _ truth kept
      ∙ replay_other r.0 other other_risk r.1
          (elim differ [ inl n ↦ inl (λ e. n (sym s ∙ e)) | inr n ↦ inr (λ e. n (sym d ∙ e)) ])
