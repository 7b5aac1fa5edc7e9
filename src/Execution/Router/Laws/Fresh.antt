-- ===== src/Execution/Router/Laws/Fresh.antt =====
-- What an order that is built for a new key rests on.
use one_year_billion.Common.{
  not-false, or-false, Pass, raise_first-Pass, Pass-at, ℕ, ◌<◌, ◌≡◌, sym, ap, ◌∙◌, Bool, true,
  false, none, some, String, ◌≟◌, ≟→≡, is_in, lower, upper, is_empty, Result, arith, ≟_refl,
  if◌then◌else◌, not, ◌&&◌,
}
use one_year_billion.Common.Float.{
  Float, IsIeee, IsNumber, nought-IsNumber, lt_of_not_le, le_of_not_lt, ◌<=?◌, ◌<?◌, nought,
  nonzero?,
}
use one_year_billion.Domain.{
  SignalCandidate, RiskDecision, SizingResult, OrderIntent, OrderType, expired,
}
use one_year_billion.Execution.Idempotency.{get_response, locked_by}
use one_year_billion.Execution.Idempotency.Laws.{locked_by-lock_symbol}
use one_year_billion.Execution.Router.{
  Store, refusals, assert_enterable, build_intent, new_intent, forbidden_product_strategies,
  shadow_only_strategies,
}
use one_year_billion.Execution.Router.Laws.Steps.{
  order_key, build_intent_key, build_intent_new, enter_ok,
}

-- The amounts that the router compares without a test for NaN are numbers.
pub record IsMeasured {W : Type 0} ⦃f : Float W⦄ (s : SizingResult W) : Type 0 where
  pub qty : IsNumber s.qty
  pub notional : IsNumber s.notional
  pub edge : IsNumber s.expected_net_edge_bps
  pub loss : IsNumber s.max_loss_if_stop
  pub budget : IsNumber s.risk_budget

-- Why an order may be opened on this signal and this decision of the risk engine.
pub record MayEnter {W R : Type 0} ⦃f : Float W⦄ (now : ℕ) (signal : SignalCandidate W)
    (risk : RiskDecision W R) : Type 0 where
  pub is_approved : risk.approved ≡ true
  pub unexpired : now < risk.expires_at
  pub same_signal : risk.signal_id ≡ signal.signal_id
  pub same_features : risk.feature_hash ≡ signal.feature_hash
  pub not_shadow : signal.shadow_only ≡ false
  pub not_shadow_strategy : is_in (lower signal.strategy) shadow_only_strategies ≡ false
  pub not_forbidden : is_in (lower signal.strategy) forbidden_product_strategies ≡ false
  pub has_stop : nonzero? signal.stop_price ≡ true
  pub has_evidence : is_empty signal.evidence ≡ false
  pub positive_qty : (nought <? risk.sizing.qty) ≡ true
  pub positive_notional : (nought <? risk.sizing.notional) ≡ true
  pub positive_edge : (nought <? risk.sizing.expected_net_edge_bps) ≡ true
  pub within_budget : (risk.sizing.max_loss_if_stop <=? risk.sizing.risk_budget) ≡ true

unexpired_of :
    {W R : Type 0} (now : ℕ) (risk : RiskDecision W R)
    → expired now risk ≡ false
    → now < risk.expires_at
unfolding expired
unexpired_of now risk h = ground arith

evidence_of : (a b : Bool) → b ≡ false → (a && not b) ≡ false → a ≡ false
evidence_of a b n h = ground arith

-- the lock on a symbol is seen in every store with the same locks
locked_after :
    {W : Type 0} (symbol key : String) (store locked after : Store W)
    → after.symbol_locks ≡ locked.symbol_locks
    → locked_by symbol locked
      ≡ (if upper symbol ≟ upper symbol then some key else locked_by symbol store)
    → locked_by symbol after ≡ some key
unfolding locked_by
locked_after symbol key store locked after same seen = ground (arith, ≟_refl (upper symbol))

module _ {W R : Type 0} ⦃f : Float W⦄ (laws : IsIeee W) where
  refusals-MayEnter :
      (now : ℕ) (signal : SignalCandidate W) (risk : RiskDecision W R)
      → IsMeasured risk.sizing
      → Pass (refusals now signal risk)
      → MayEnter now signal risk
  unfolding refusals
  refusals-MayEnter now signal risk m p =
      let passed = λ (n : ℕ). Pass-at n (refusals now signal risk) p in
      let (no_shadow, live) = or-false _ _ (passed 1) in
      let (no_qty, no_notional) = or-false _ _ (passed 10) in
      record {
        is_approved = not-false _ (passed 2);
        unexpired = unexpired_of now risk (passed 3);
        same_signal = ≟→≡ _ _ (not-false _ (passed 4));
        same_features = ≟→≡ _ _ (not-false _ (passed 5));
        not_shadow = no_shadow;
        not_shadow_strategy = live;
        not_forbidden = passed 0;
        has_stop = not-false _ (or-false _ _ (passed 6)).0;
        has_evidence = evidence_of _ _ no_shadow (passed 9);
        positive_qty = lt_of_not_le laws _ _ (nought-IsNumber laws) m.qty no_qty;
        positive_notional = lt_of_not_le laws _ _ (nought-IsNumber laws) m.notional no_notional;
        positive_edge = lt_of_not_le laws _ _ (nought-IsNumber laws) m.edge (passed 12);
        within_budget = le_of_not_lt laws _ _ m.loss m.budget (or-false _ _ (passed 11)).1;
      }

  -- Where the amounts that it compares without a test are numbers, an order that is built for a new
  -- key rests on a decision that is approved, not expired and made
  -- for this very signal and its features, on a signal with a stop and evidence that is neither
  -- shadow-only nor of a forbidden product, and on a size within the risk budget. It asks for the
  -- approved quantity at the signal's price, post-only, and the symbol is locked for its key.
  pub build_intent_rests_on :
      (sha256_hex : String → String) (now : ℕ) (id : String) (signal : SignalCandidate W)
      (risk : RiskDecision W R) (key : String) (store : Store W) {r : OrderIntent W × Store W}
      → IsMeasured risk.sizing
      → get_response (order_key key) store ≡ none
      → build_intent sha256_hex now id signal risk key store ≡ Result.ok r
      → MayEnter now signal risk
        × (r.0.qty ≡ risk.sizing.qty)
        × (r.0.price ≡ some signal.entry_price)
        × (r.0.order_type ≡ OrderType.post_only)
        × (r.0.symbol ≡ signal.symbol)
        × (locked_by signal.symbol r.1 ≡ some (order_key key))
  unfolding new_intent assert_enterable
  build_intent_rests_on sha256_hex now id signal risk key store {r} m new h =
      let truth = build_intent_key sha256_hex now id signal risk key store h in
      let entered = sym (build_intent_new sha256_hex now id signal risk key store truth new) ∙ h in
      let (checked, built, locked, held, locks, responses) =
        enter_ok sha256_hex now id signal risk key store entered in
      let (seen, _) =
        locked_by-lock_symbol signal.symbol (order_key key) signal.symbol store held in
      (
        refusals-MayEnter now signal risk m (raise_first-Pass (refusals now signal risk) checked),
        ap (λ (o : OrderIntent W). o.qty) built,
        ap (λ (o : OrderIntent W). o.price) built,
        ap (λ (o : OrderIntent W). o.order_type) built,
        ap (λ (o : OrderIntent W). o.symbol) built,
        locked_after signal.symbol (order_key key) store locked r.1 locks seen,
      )
