-- ===== src/Execution/Idempotency/Laws.antt =====
-- The symbol locks as a partial map from symbols to the keys that hold them, which is all that a
-- caller of the store can see of them.
use one_year_billion.Common.{
  ◌≡◌, ◌≢◌, true, Option, none, some, String, ◌≟◌, truthy, get-put, get-pop, Result, if◌then◌else◌,
  upper, arith,
}
use text.Mathlib.TextEquality.{eq_iff}
use one_year_billion.Execution.Idempotency.{
  StoreError, IdempotencyStore, lock_symbol, release_symbol, locked_by, get_response, may_release,
}

module _ {V : Type 0} where
  -- A successful lock is seen under every spelling of the symbol, and under no other symbol; the
  -- stored answers stay as they are.
  pub locked_by-lock_symbol :
      (symbol key other : String) (s : IdempotencyStore V) {t : IdempotencyStore V}
      → lock_symbol symbol key s ≡ Result.ok t
      → (locked_by other t ≡ (if upper symbol ≟ upper other then some key else locked_by other s))
        × (get_response other t ≡ get_response other s)
  unfolding lock_symbol locked_by get_response
  locked_by-lock_symbol symbol key other s h =
      ground (arith, get-put (upper symbol) (upper other) key s.symbol_locks)

  -- While a key that is not empty holds a symbol, every other key is refused.
  pub lock_symbol_excludes :
      (symbol key owner : String) (s : IdempotencyStore V)
      → locked_by symbol s ≡ some owner
      → truthy owner ≡ true
      → truthy key ≡ true
      → owner ≢ key
      → lock_symbol symbol key s ≡ Result.raised StoreError.symbol_locked_pending_execution
  unfolding lock_symbol locked_by
  lock_symbol_excludes symbol key owner s h p q n = ground (arith, eq_iff owner key)

  -- A release by the owner, or with no key, frees the symbol; one by another key changes nothing.
  -- No other symbol is touched.
  pub locked_by-release_symbol :
      (symbol other : String) (key : Option String) (owner : String) (s : IdempotencyStore V)
      → locked_by symbol s ≡ some owner
      → truthy owner ≡ true
      → locked_by other (release_symbol symbol key s) ≡ (
          if upper symbol ≟ upper other
          then (if may_release key (some owner) then none else some owner)
          else locked_by other s)
  unfolding release_symbol locked_by
  locked_by-release_symbol symbol other key owner s h p = ground (
    arith,
    eq_iff (upper symbol) (upper other),
    get-pop (upper symbol) (upper other) s.symbol_locks,
  )
