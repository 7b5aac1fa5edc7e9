-- ===== src/Execution/Router/Laws/Steps.antt =====
-- The two branches of `build_intent`, each from its outcome.
use Prim.Native.String.{◌++◌}
use text.Mathlib.TextEquality.{eq_iff}
use one_year_billion.Common.{
  ℕ, ◌≡◌, ap, size, size-append, refl, true, none, some, String, truthy, Result, arith, put,
  >>=-eq-ok,
}
use one_year_billion.Common.Float.{Float}
use one_year_billion.Domain.{SignalCandidate, RiskDecision, OrderIntent}
use one_year_billion.Execution.Idempotency.{
  namespaced_idempotency_key, get_response, put_response, lock_symbol, StoreError,
}
use one_year_billion.Execution.Router.{
  Store, Stored, enter, replay, build_intent, assert_enterable, lift, new_intent,
}

-- `f'order:{key}'`
unfoldable pub order_key : String → String
order_key key = "order" ++ ":" ++ key

word_size : size "order" ≡ 5
unfolding size
word_size = refl

empty_size : size "" ≡ 0
unfolding size
empty_size = refl

order_key-ne-empty : (key : String) → ¬ (order_key key ≡ "")
unfolding order_key
order_key-ne-empty key e =
    absurd (omega (arith, ap size e, size-append "order" (":" ++ key), word_size, empty_size))

pub order_key-truthy : (key : String) → truthy (order_key key) ≡ true
order_key-truthy key = ground (arith, eq_iff (order_key key) "", order_key-ne-empty key)

lift-eq-ok : {A : Type 0} (m : Result StoreError A) {a : A} → lift m ≡ Result.ok a → m ≡ Result.ok a
lift-eq-ok (Result.ok b) h = ground arith
lift-eq-ok (Result.raised e) h = cc

module _ {W R : Type 0} ⦃f : Float W⦄ (sha256_hex : String → String) (now : ℕ) (id : String)
    (signal : SignalCandidate W) (risk : RiskDecision W R) (key : String) (store : Store W) where
  pub build_intent_key :
      {r : OrderIntent W × Store W}
      → build_intent sha256_hex now id signal risk key store ≡ Result.ok r
      → truthy key ≡ true
  unfolding build_intent
  build_intent_key h = ground arith

  pub build_intent_new :
      truthy key ≡ true
      → get_response (order_key key) store ≡ none
      → build_intent sha256_hex now id signal risk key store
        ≡ enter sha256_hex now id signal risk key (order_key key) store
  unfolding build_intent namespaced_idempotency_key order_key
  build_intent_new h e = ground arith

  pub build_intent_known :
      (cached : Stored W)
      → truthy key ≡ true
      → get_response (order_key key) store ≡ some cached
      → build_intent sha256_hex now id signal risk key store
        ≡ replay sha256_hex cached signal risk store
  unfolding build_intent namespaced_idempotency_key order_key
  build_intent_known cached h e = ground arith

  -- An order that was entered is checked, holds the lock, and is stored.
  pub enter_ok :
      {r : OrderIntent W × Store W}
      → enter sha256_hex now id signal risk key (order_key key) store ≡ Result.ok r
      → (assert_enterable now signal risk ≡ Result.ok tt)
        × (r.0 ≡ new_intent sha256_hex id signal risk key)
        × (locked : Store W) × (lock_symbol signal.symbol (order_key key) store ≡ Result.ok locked)
        × (r.1.symbol_locks ≡ locked.symbol_locks)
        × (r.1.responses ≡ put (order_key key) (Stored.order r.0) locked.responses)
  unfolding enter put_response
  enter_ok h =
      let (checked, c, rest) = >>=-eq-ok (assert_enterable now signal risk) _ h in
      let (locked, l, stored) =
        >>=-eq-ok (lift (lock_symbol signal.symbol (order_key key) store)) _ rest in
      let held = lift-eq-ok (lock_symbol signal.symbol (order_key key) store) l in
      (
        c,
        ground (arith, order_key-truthy key),
        locked,
        held,
        ground (arith, order_key-truthy key),
        ground (arith, order_key-truthy key),
      )
