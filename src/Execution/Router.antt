-- ===== src/Execution/Router.antt =====
-- app/execution/order_router.py. A method returns its result, or the error that it raises, and the
-- idempotency store that it leaves behind.
pub mod Laws
use one_year_billion.Common.{
  ℕ, Bool, true, false, ◌&&◌, ◌||◌, not, Option, none, some, List, [], ◌∷◌, String, ◌≟◌, truthy,
  truthy?, is_in, Result, ok, raised, raise_if, Guard, ◌⇒◌, raise_first, ◌>>=◌, ◌>>◌, if◌then◌else◌,
  is_empty, lower,
}
use one_year_billion.Common.Float.{Float, ◌<=?◌, ◌<?◌, nought, nonzero?}
use one_year_billion.Domain.{
  SignalCandidate, RiskDecision, OrderIntent, OrderType, OrderState, expired,
}
use one_year_billion.Execution.Idempotency.{
  StoreError, IdempotencyStore, namespaced_idempotency_key, deterministic_order_link_id,
  get_response, put_response, lock_symbol, release_symbol,
}

pub data RouterError : Type 0 where
  idempotency_key_required idempotency_key_reserved_for_other_domain
        idempotency_key_reused_with_different_request strategy_forbidden_product_scope
        shadow_signal_has_no_live_route risk_decision_not_approved risk_decision_expired
        risk_signal_mismatch risk_feature_hash_mismatch missing_stop_or_invalidator
        missing_feature_hash incomplete_signal_lineage missing_strategy_evidence
        invalid_approved_sizing approved_sizing_breaks_risk_budget no_positive_net_edge :
      RouterError
  store_error : StoreError → RouterError

-- `FORBIDDEN_PRODUCT_STRATEGIES`
abbrev pub forbidden_product_strategies : List String
forbidden_product_strategies =
    "martingale" ∷ "dca" ∷ "spot_grid" ∷ "inverse_futures" ∷ "options" ∷ "copy_trading"
    ∷ "signal_bot" ∷ "portfolio_bot" ∷ []

-- `SHADOW_ONLY_STRATEGIES_PHASE_0_1`
abbrev pub shadow_only_strategies : List String
shadow_only_strategies =
    "carry" ∷ "carry_live" ∷ "funding" ∷ "funding_carry" ∷ "pair_statarb" ∷ "statarb"
    ∷ "statarb_live" ∷ "stat_arb" ∷ []

-- What the store keeps under a key: an order, or the answer of another writing endpoint.
pub data Stored (W : Type 0) : Type 0 where
  order : OrderIntent W → Stored W
  answer : String → Stored W

abbrev pub Store : Type 0 → Type 0
Store W = IdempotencyStore (Stored W)

-- an error of the store, seen by the router's caller
abbrev pub lift : {A : Type 0} → Result StoreError A → Result RouterError A
lift (Result.ok a) = Result.ok a
lift (Result.raised e) = Result.raised (RouterError.store_error e)

module _ {W R : Type 0} where
  unfoldable pub assert_cached_request_matches :
      OrderIntent W → SignalCandidate W → RiskDecision W R → Result RouterError (Unit {0})
  assert_cached_request_matches cached signal risk =
      raise_if
        (not (cached.signal_id ≟ signal.signal_id)
          || not (cached.risk_decision_id ≟ risk.risk_decision_id))
        RouterError.idempotency_key_reused_with_different_request

module _ {W R : Type 0} ⦃f : Float W⦄ where
  -- the refusals of `build_intent` for a key that is new, in their order
  unfoldable pub refusals : ℕ → SignalCandidate W → RiskDecision W R → List (Guard RouterError)
  unfolding expired
  refusals now signal risk =
      let strategy_name = lower signal.strategy in
      is_in strategy_name forbidden_product_strategies
        ⇒ RouterError.strategy_forbidden_product_scope
      ∷ (signal.shadow_only || is_in strategy_name shadow_only_strategies)
        ⇒ RouterError.shadow_signal_has_no_live_route
      ∷ not risk.approved ⇒ RouterError.risk_decision_not_approved
      ∷ expired now risk ⇒ RouterError.risk_decision_expired
      ∷ not (risk.signal_id ≟ signal.signal_id) ⇒ RouterError.risk_signal_mismatch
      ∷ not (risk.feature_hash ≟ signal.feature_hash) ⇒ RouterError.risk_feature_hash_mismatch
      ∷ (not (nonzero? signal.stop_price) || not (truthy? signal.invalidator))
        ⇒ RouterError.missing_stop_or_invalidator
      ∷ not (truthy signal.feature_hash) ⇒ RouterError.missing_feature_hash
      ∷ (not (truthy? signal.regime_id)
          || not (truthy? signal.feature_id)
          || is_empty signal.required_data)
        ⇒ RouterError.incomplete_signal_lineage
      ∷ (is_empty signal.evidence && not signal.shadow_only) ⇒ RouterError.missing_strategy_evidence
      ∷ (risk.sizing.qty <=? nought || risk.sizing.notional <=? nought)
        ⇒ RouterError.invalid_approved_sizing
      ∷ (risk.sizing.risk_budget <=? nought
          || risk.sizing.risk_budget <? risk.sizing.max_loss_if_stop)
        ⇒ RouterError.approved_sizing_breaks_risk_budget
      ∷ (risk.sizing.expected_net_edge_bps <=? nought) ⇒ RouterError.no_positive_net_edge
      ∷ []

  unfoldable pub assert_enterable :
      ℕ → SignalCandidate W → RiskDecision W R → Result RouterError (Unit {0})
  unfolding refusals
  assert_enterable now signal risk = raise_first (refusals now signal risk)

  module _ (sha256_hex : String → String) where
    -- the order of a checked signal; `order_id` is the new `uuid4`
    unfoldable pub new_intent :
        String → SignalCandidate W → RiskDecision W R → String → OrderIntent W
    new_intent order_id signal risk idempotency_key = record {
      order_id = order_id;
      signal_id = signal.signal_id;
      risk_decision_id = risk.risk_decision_id;
      client_order_id =
          deterministic_order_link_id sha256_hex signal.signal_id risk.risk_decision_id "entry" 1;
      symbol = signal.symbol;
      side = signal.side;
      order_type = OrderType.post_only;
      qty = risk.sizing.qty;
      price = some signal.entry_price;
      reduce_only = false;
      state = OrderState.approved;
      idempotency_key = idempotency_key;
      trace_id = signal.trace_id;
    }

    -- a request whose key is new: the refusals, the lock, the order and the stored answer
    unfoldable pub enter :
        ℕ
        → String
        → SignalCandidate W
        → RiskDecision W R
        → String
        → String
        → Store W
        → Result RouterError (OrderIntent W × Store W)
    enter now order_id signal risk idempotency_key idem_key store = do
      assert_enterable now signal risk
      locked ← lift (lock_symbol signal.symbol idem_key store)
      let intent = new_intent order_id signal risk idempotency_key
      stored ← lift (put_response idem_key (Stored.order intent) locked)
      Result.ok (intent, stored)

    -- a request whose key has an answer already
    unfoldable pub replay :
        Stored W
        → SignalCandidate W
        → RiskDecision W R
        → Store W
        → Result RouterError (OrderIntent W × Store W)
    replay (Stored.answer _) signal risk store =
        Result.raised RouterError.idempotency_key_reserved_for_other_domain
    replay (Stored.order cached) signal risk store = do
      assert_cached_request_matches cached signal risk
      Result.ok (cached, store)

    -- Nothing is written before the last refusal, so an error leaves the store as it was.
    unfoldable pub build_intent :
        ℕ
        → String
        → SignalCandidate W
        → RiskDecision W R
        → String
        → Store W
        → Result RouterError (OrderIntent W × Store W)
    build_intent now order_id signal risk idempotency_key store = do
      raise_if (not (truthy idempotency_key)) RouterError.idempotency_key_required
      idem_key ← lift (namespaced_idempotency_key "order" idempotency_key)
      elim (get_response idem_key store) [
        | none ↦ enter now order_id signal risk idempotency_key idem_key store
        | some cached ↦ replay cached signal risk store
      ]

-- `OrderRouter.release_symbol`
unfoldable pub release_order_symbol :
    {W : Type 0} → String → Option String → Store W → Result RouterError (Store W)
release_order_symbol symbol none store = Result.ok (release_symbol symbol none store)
release_order_symbol symbol (some key) store =
    if truthy key
    then (do
      scoped ← lift (namespaced_idempotency_key "order" key)
      Result.ok (release_symbol symbol (some scoped) store))
    else Result.ok (release_symbol symbol none store)
