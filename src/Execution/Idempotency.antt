-- ===== src/Execution/Idempotency.antt =====
-- app/execution/idempotency.py: the store of answers by idempotency key, and the locks on symbols.
pub mod Laws
pub mod LinkId
use Prim.Native.String.{◌++◌}
use one_year_billion.Common.{
  ℕ, Bool, true, false, ◌&&◌, ◌||◌, not, Option, none, some, List, [], String, ◌≟◌, truthy, truthy?,
  Dict, get, put, pop, Result, raise_if, ◌>>=◌, ◌>>◌, if◌then◌else◌, upper, take, decimal, is_none,
}

pub data StoreError : Type 0 where
  namespace_and_key_required key_required symbol_locked_pending_execution : StoreError

unfoldable pub namespaced_idempotency_key : String → String → Result StoreError String
namespaced_idempotency_key namespace key = do
  raise_if (not (truthy namespace) || not (truthy key)) StoreError.namespace_and_key_required
  Result.ok (namespace ++ ":" ++ key)

-- `sha256_hex` is `hashlib.sha256(text.encode('utf-8')).hexdigest()`.
module _ (sha256_hex : String → String) where
  unfoldable pub deterministic_order_link_id : String → String → String → ℕ → String
  deterministic_order_link_id signal_id risk_decision_id action sequence =
      let digest = take 20 (
        sha256_hex
          (signal_id ++ ":" ++ risk_decision_id ++ ":" ++ action ++ ":" ++ decimal sequence)) in
      take 36 ("cas26-" ++ take 3 action ++ "-" ++ digest)

-- `V` is the type of what the store keeps.
pub record IdempotencyStore (V : Type 0) : Type 0 where
  pub responses : Dict V
  pub symbol_locks : Dict String

-- `existing_key and existing_key != idempotency_key`
unfoldable pub held_by_other : String → Option String → Bool
held_by_other key none = false
held_by_other key (some owner) = truthy owner && not (owner ≟ key)

-- `current and (idempotency_key is None or idempotency_key == current)`
unfoldable pub may_release : Option String → Option String → Bool
may_release key none = false
may_release none (some owner) = truthy owner
may_release (some key) (some owner) = truthy owner && key ≟ owner

module _ {V : Type 0} where
  unfoldable pub empty_store : IdempotencyStore V
  empty_store = record { responses = []; symbol_locks = [] }

  unfoldable pub get_response : String → IdempotencyStore V → Option V
  get_response key s = get key s.responses

  unfoldable pub put_response :
      String → V → IdempotencyStore V → Result StoreError (IdempotencyStore V)
  put_response key value s = do
    raise_if (not (truthy key)) StoreError.key_required
    Result.ok (record s { responses = put key value s.responses })

  unfoldable pub lock_symbol :
      String → String → IdempotencyStore V → Result StoreError (IdempotencyStore V)
  unfolding held_by_other
  lock_symbol symbol key s = do
    raise_if (not (truthy key)) StoreError.key_required
    raise_if (held_by_other key (get (upper symbol) s.symbol_locks))
        StoreError.symbol_locked_pending_execution
    Result.ok (record s { symbol_locks = put (upper symbol) key s.symbol_locks })

  unfoldable pub release_symbol : String → Option String → IdempotencyStore V → IdempotencyStore V
  unfolding may_release
  release_symbol symbol key s =
      if may_release key (get (upper symbol) s.symbol_locks)
      then record s { symbol_locks = pop (upper symbol) s.symbol_locks }
      else s

  unfoldable pub locked_by : String → IdempotencyStore V → Option String
  locked_by symbol s = get (upper symbol) s.symbol_locks
