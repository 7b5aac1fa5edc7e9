-- ===== src/Execution/Tests.antt =====
-- Runs of the order router, the idempotency store and the state machine on concrete values.
use one_year_billion.Common.{
  ◌++◌ as append, ℕ, ◌≡◌, ◌≢◌, inl, refl, false, none, some, List, [], ◌∷◌, String, ◌≟◌, Result,
  get, put, upper, lower, arith, Pass, if◌then◌else◌,
}
use text.Mathlib.TextEquality.{eq_iff}
use one_year_billion.Common.Fixed.{Fixed, fixed_float, Fixed-IsIeee}
use one_year_billion.Domain.{OrderIntent, OrderType, OrderState, expired}
use one_year_billion.Execution.Samples.{money, digest, signal_1, signal_2, risk_1, store_0}
use one_year_billion.Execution.Lifecycle.{can_transition}
use one_year_billion.Execution.Lifecycle.Laws.{IsPath, exposure_needs_approval}
use one_year_billion.Execution.Idempotency.{
  IdempotencyStore, lock_symbol, release_symbol, locked_by, get_response, put_response,
  namespaced_idempotency_key, deterministic_order_link_id,
}
use one_year_billion.Execution.Idempotency.Laws.{locked_by-lock_symbol}
use one_year_billion.Execution.Router.{
  Store, Stored, RouterError, build_intent, release_order_symbol, new_intent, refusals, enter,
  assert_enterable,
}
use one_year_billion.Execution.Router.Laws.Steps.{order_key}
use one_year_billion.Execution.Router.Laws.Fresh.{IsMeasured, MayEnter, build_intent_rests_on}
use one_year_billion.Execution.Router.Laws.Maker.{IsMakerEntry, build_intent-IsMakerEntry}
use one_year_billion.Execution.Router.Laws.Replay.{build_intent_idempotent, build_intent_conflict}
use one_year_billion.Execution.Router.Laws.Locks.{
  IsConsistent, build_intent-IsConsistent, one_entry_per_symbol,
}

unfoldable order_1 : OrderIntent Fixed
order_1 = new_intent digest "o1" signal_1 risk_1 "k1"

unfoldable store_1 : Store Fixed
store_1 = record {
  responses = ("order:k1", Stored.order order_1) ∷ [];
  symbol_locks = ("BTCUSDT", "order:k1") ∷ [];
}

built_1 : build_intent digest 500 "o1" signal_1 risk_1 "k1" store_0 ≡ Result.ok (order_1, store_1)
unfolding order_1 store_1 build_intent namespaced_idempotency_key get_response get enter
    assert_enterable lower lock_symbol put_response put upper
built_1 = refl

risk_1-IsMeasured : IsMeasured {W = Fixed} risk_1.sizing
risk_1-IsMeasured = record { qty = refl; notional = refl; edge = refl; loss = refl; budget = refl }

new_1 : get_response (order_key "k1") store_0 ≡ none
unfolding get_response get
new_1 = refl

build_intent_rests_on_example :
    MayEnter {W = Fixed} 500 signal_1 risk_1
    × (order_1.qty ≡ money 32)
    × (order_1.price ≡ some (money 100))
    × (order_1.order_type ≡ OrderType.post_only)
    × (order_1.symbol ≡ "BTCUSDT")
    × (locked_by "BTCUSDT" store_1 ≡ some (order_key "k1"))
build_intent_rests_on_example =
    build_intent_rests_on Fixed-IsIeee digest 500 "o1" signal_1 risk_1 "k1" store_0
      risk_1-IsMeasured new_1 built_1

passed_1 : Pass (refusals {W = Fixed} 500 signal_1 risk_1)
unfolding refusals lower expired
passed_1 = (
  refl,
  (
    refl,
    (refl, (refl, (refl, (refl, (refl, (refl, (refl, (refl, (refl, (refl, (refl, tt))))))))))),
  ),
)

free_1 : locked_by "BTCUSDT" store_0 ≡ none
unfolding locked_by get
free_1 = refl

build_intent_idempotent_example :
    build_intent digest 900 "o2" signal_1 risk_1 "k1" store_1 ≡ Result.ok (order_1, store_1)
build_intent_idempotent_example =
    build_intent_idempotent digest 500 900 "o1" "o2" signal_1 risk_1 "k1" store_0 built_1

differ : (a b : String) → (a ≟ b) ≡ false → a ≢ b
differ a b h = ground (arith, eq_iff a b)

other_id : signal_1.signal_id ≢ signal_2.signal_id
other_id = differ "s1" "s2" refl

build_intent_conflict_example :
    build_intent digest 510 "o2" signal_2 risk_1 "k1" store_1
    ≡ Result.raised RouterError.idempotency_key_reused_with_different_request
build_intent_conflict_example =
    build_intent_conflict digest 500 510 "o1" "o2" signal_1 signal_2 risk_1 risk_1 "k1" store_0
      built_1 (inl other_id)

store_0-IsConsistent : IsConsistent store_0
unfolding locked_by get
store_0-IsConsistent symbol owner h = cc

build_intent-IsConsistent_example : IsConsistent store_1
build_intent-IsConsistent_example =
    build_intent-IsConsistent digest 500 "o1" signal_1 risk_1 "k1" store_0 store_0-IsConsistent
      built_1

released_0 : release_order_symbol "btcusdt" (some "k1") store_0 ≡ Result.ok store_0
unfolding release_order_symbol release_symbol namespaced_idempotency_key get
released_0 = refl

new_2 : get_response (order_key "k2") store_1 ≡ none
unfolding get_response get order_key store_1
new_2 = refl

held_1 : locked_by "btcusdt" store_1 ≡ some "order:k1"
unfolding locked_by get store_1 upper
held_1 = refl

other_key : "order:k1" ≢ order_key "k2"
unfolding order_key
other_key = differ "order:k1" "order:k2" refl

one_entry_per_symbol_example :
    build_intent digest 510 "o2" signal_2 risk_1 "k2" store_1 ≢ Result.ok (order_1, store_1)
one_entry_per_symbol_example =
    one_entry_per_symbol digest 510 "o2" signal_2 risk_1 "k2" "order:k1" store_1 new_2 held_1 refl
      other_key

abbrev locks_0 : IdempotencyStore ℕ
locks_0 = record { responses = ("a", 1) ∷ []; symbol_locks = ("ETHUSDT", "k1") ∷ [] }

abbrev locks_1 : IdempotencyStore ℕ
locks_1 = record {
  responses = ("a", 1) ∷ [];
  symbol_locks = ("ETHUSDT", "k1") ∷ ("BTCUSDT", "k2") ∷ [];
}

lock_1 : lock_symbol "btcusdt" "k2" locks_0 ≡ Result.ok locks_1
unfolding lock_symbol put get upper
lock_1 = refl

locked_by-lock_symbol_example :
    (locked_by "BtcUsdt" locks_1
      ≡ (if upper "btcusdt" ≟ upper "BtcUsdt" then some "k2" else locked_by "BtcUsdt" locks_0))
    × (get_response "BtcUsdt" locks_1 ≡ get_response "BtcUsdt" locks_0)
locked_by-lock_symbol_example = locked_by-lock_symbol "btcusdt" "k2" "BtcUsdt" locks_0 lock_1

held_by_k1 : locked_by "ethusdt" locks_0 ≡ some "k1"
unfolding locked_by get upper
held_by_k1 = refl

abbrev life_1 : List OrderState
life_1 =
    OrderState.approved ∷ OrderState.order_submitted ∷ OrderState.filled
    ∷ OrderState.protected_with_sltp ∷ []

life_1-IsPath : IsPath OrderState.pending_signal life_1
unfolding can_transition
life_1-IsPath = (refl, (refl, (refl, (refl, tt))))

exposure_needs_approval_example :
    (before after : List OrderState) × (OrderState.pending_signal ∷ life_1
      ≡ append before (OrderState.approved ∷ OrderState.order_submitted ∷ after))
exposure_needs_approval_example =
    exposure_needs_approval OrderState.pending_signal life_1 (λ e. cc) refl life_1-IsPath refl

abbrev life_2 : List OrderState
life_2 = OrderState.reduce_only_exiting ∷ OrderState.closed ∷ OrderState.pending_signal ∷ []

life_2-IsPath : IsPath OrderState.filled life_2
unfolding can_transition
life_2-IsPath = (refl, (refl, (refl, tt)))

build_intent-IsMakerEntry_example :
    IsMakerEntry (deterministic_order_link_id digest "s1" "r1" "entry" 1) order_1
build_intent-IsMakerEntry_example =
    build_intent-IsMakerEntry digest 500 "o1" signal_1 risk_1 "k1" store_0 new_1 built_1
