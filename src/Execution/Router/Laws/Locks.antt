-- ===== src/Execution/Router/Laws/Locks.antt =====
-- The locks and the stored orders belong together: every locked symbol is held by the key of an order
-- for that symbol.
use one_year_billion.Common.{
  ℕ, ◌≡◌, sym, ap, ◌∙◌, ◌≢◌, inl, inr, true, Option, none, some, String, ◌≟◌, ≟→≡, ≟_refl, truthy,
  Result, arith, put, get-put, get-pop, upper, Option-cases, Bool-cases,
}
use Prim.Native.String.{◌++◌}
use mathlib.Core.Path.{subst}
use text.Mathlib.TextEquality.{eq_iff}
use one_year_billion.Common.Float.{Float}
use one_year_billion.Domain.{SignalCandidate, RiskDecision, OrderIntent}
use one_year_billion.Execution.Idempotency.{
  get_response, lock_symbol, locked_by, release_symbol, namespaced_idempotency_key,
}
use one_year_billion.Execution.Idempotency.Laws.{locked_by-lock_symbol, lock_symbol_excludes}
use one_year_billion.Execution.Router.{
  Store, Stored, build_intent, new_intent, release_order_symbol,
}
use one_year_billion.Execution.Router.Laws.Steps.{
  order_key, order_key-truthy, build_intent_key, build_intent_new, build_intent_known, enter_ok,
}
use one_year_billion.Execution.Router.Laws.Replay.{replay_ok}

abbrev pub HoldsOrder : {W : Type 0} → Store W → String → String → Type 0
HoldsOrder {W} store symbol owner =
    (o : OrderIntent W) × (get_response owner store ≡ some (Stored.order o))
    × (upper o.symbol ≡ upper symbol)

abbrev pub IsConsistent : {W : Type 0} → Store W → Type 0
IsConsistent store =
    (symbol owner : String) → locked_by symbol store ≡ some owner → HoldsOrder store symbol owner

module _ {W : Type 0} where
  -- the store after an order was entered, symbol by symbol
  entered-IsConsistent :
      (symbol key : String) (o : OrderIntent W) (store locked after : Store W)
      → IsConsistent store
      → get_response key store ≡ none
      → o.symbol ≡ symbol
      → lock_symbol symbol key store ≡ Result.ok locked
      → after.symbol_locks ≡ locked.symbol_locks
      → after.responses ≡ put key (Stored.order o) locked.responses
      → IsConsistent after
  unfolding get_response locked_by
  entered-IsConsistent symbol key o store locked after c new same held locks responses other owner
        h =
      let stored = λ (k : String). get-put key k (Stored.order o) locked.responses in
      let seen = λ (k : String). locked_by-lock_symbol symbol key k store held in
      elim (Bool-cases (upper symbol ≟ upper other)) [
        | inl e ↦
            (o, ground (arith, stored owner, (seen other).0, ≟_refl key), ap upper same ∙ ≟→≡ _ _ e)
        | inr n ↦
            let (p, held_before, s) = c other owner (ground (arith, (seen other).0)) in
            (p, ground (arith, stored owner, (seen owner).1, eq_iff key owner), s)
      ]

  -- A release gives no symbol a new owner, and keeps the stored answers.
  release_shrinks :
      (symbol other owner : String) (key : Option String) (store : Store W)
      → locked_by other (release_symbol symbol key store) ≡ some owner
      → (locked_by other store ≡ some owner)
        × (get_response owner (release_symbol symbol key store) ≡ get_response owner store)
  unfolding release_symbol get_response locked_by
  release_shrinks symbol other owner key store h =
      ground (arith, get-pop (upper symbol) (upper other) store.symbol_locks)

  release-IsConsistent :
      (symbol : String) (key : Option String) (store : Store W)
      → IsConsistent store
      → IsConsistent (release_symbol symbol key store)
  release-IsConsistent symbol key store c other owner h =
      let (before, same) = release_shrinks symbol other owner key store h in
      let (o, stored, s) = c other owner before in (o, same ∙ stored, s)

  release_order_symbol_releases :
      (symbol : String) (key : Option String) (store : Store W) {after : Store W}
      → release_order_symbol symbol key store ≡ Result.ok after
      → (scoped : Option String) × (release_symbol symbol scoped store ≡ after)
  unfolding release_order_symbol namespaced_idempotency_key
  release_order_symbol_releases symbol none store h = (none, ground arith)
  release_order_symbol_releases symbol (some key) store h = elim (Bool-cases (truthy key)) [
    | inl t ↦ (some ("order" ++ ":" ++ key), ground arith)
    | inr t ↦ (none, ground arith)
  ]

  -- Releasing a symbol keeps locks and orders together.
  pub release_order_symbol-IsConsistent :
      (symbol : String) (key : Option String) (store : Store W) {after : Store W}
      → IsConsistent store
      → release_order_symbol symbol key store ≡ Result.ok after
      → IsConsistent after
  release_order_symbol-IsConsistent symbol key store c h =
      let (scoped, e) = release_order_symbol_releases symbol key store h in
      subst IsConsistent e (release-IsConsistent symbol scoped store c)

module _ {W R : Type 0} ⦃f : Float W⦄ (sha256_hex : String → String) where
  -- Building an order keeps locks and orders together: each locked symbol is held by the key of a
  -- stored order for that symbol.
  pub build_intent-IsConsistent :
      (now : ℕ) (id : String) (signal : SignalCandidate W) (risk : RiskDecision W R) (key : String)
      (store : Store W) {r : OrderIntent W × Store W}
      → IsConsistent store
      → build_intent sha256_hex now id signal risk key store ≡ Result.ok r
      → IsConsistent r.1
  unfolding new_intent
  build_intent-IsConsistent now id signal risk key store {r} c h =
      let truth = build_intent_key sha256_hex now id signal risk key store h in
      elim (Option-cases (get_response (order_key key) store)) [
        | inl new ↦
            let entered =
              sym (build_intent_new sha256_hex now id signal risk key store truth new) ∙ h in
            let (_, built, locked, held, locks, responses) =
              enter_ok sha256_hex now id signal risk key store entered in
            entered-IsConsistent signal.symbol (order_key key) r.0 store locked r.1 c new
              (ap (λ (o : OrderIntent W). o.symbol) built) held locks responses
        | inr (cached, old) ↦
            let replayed =
              sym (build_intent_known sha256_hex now id signal risk key store cached truth old)
              ∙ h in
            subst IsConsistent (sym (replay_ok sha256_hex cached signal risk store replayed).1) c
      ]

  -- While the order of one key holds a symbol, no new order is built for that symbol, in whatever
  -- case it is spelled, under another key.
  pub one_entry_per_symbol :
      (now : ℕ) (id : String) (signal : SignalCandidate W) (risk : RiskDecision W R)
      (key owner : String) (store : Store W) {r : OrderIntent W × Store W}
      → get_response (order_key key) store ≡ none
      → locked_by signal.symbol store ≡ some owner
      → truthy owner ≡ true
      → owner ≢ order_key key
      → build_intent sha256_hex now id signal risk key store ≢ Result.ok r
  one_entry_per_symbol now id signal risk key owner store new held t n h =
      let truth = build_intent_key sha256_hex now id signal risk key store h in
      let entered = sym (build_intent_new sha256_hex now id signal risk key store truth new) ∙ h in
      let (_, _, locked, granted, _, _) =
        enter_ok sha256_hex now id signal risk key store entered in
      let refused =
        lock_symbol_excludes signal.symbol (order_key key) owner store held t (order_key-truthy key)
          n in
      cc
