-- ===== src/Execution/Bybit/Client.antt =====
-- The requests of app/execution/bybit_adapter.py: the limit on their rate, the synchronisation with
-- the exchange's clock and the signature.
use Prim.Native.String.{◌++◌}
use one_year_billion.Common.{
  ℕ, ◌+◌, Bool, true, ◌||◌, not, Option, none, some, List, [], ◌∷◌, String, ◌≟◌, leb, size, before,
  before_point, truthy, decimal, Dict, Result, if◌then◌else◌, is_none,
}
use one_year_billion.Common.Float.{Float, ◌⊗◌}
use one_year_billion.Common.Int.{ℤ, pos, negsuc, ◌+ℤ◌, ◌-ℤ◌, ◌*ℤ◌, quot_ℤ, ltb_ℤ}
use one_year_billion.Common.Json.{Json, Fields, is_null, get_json, get_or}
use one_year_billion.Execution.Bybit.Error.{Failure, bybit_api_error}
use one_year_billion.Execution.Bybit.Values.{or_empty, attr_get}
use one_year_billion.Execution.Bybit.Limiter.{allow}
use one_year_billion.Execution.Bybit.Answers.{accept}
use one_year_billion.Execution.Bybit.Session.{
  BybitConfig, base_url, Method, Request, Response, Session, Action, ◌>>=◌, ◌>>◌, return,
  from_result, read, raise_when,
}

-- What the adapter calls outside of the program: `str`, `float` of a text and `int` of a float (none
-- where they raise), the two clocks by the number of the reading, the HTTP client, which answers by
-- the requests that were sent before, and HMAC-SHA256.
pub record Outside (W : Type 0) : Type 0 where
  pub str_of : Json → String
  pub float_of_text : String → Option W
  pub int_of_float : W → Option ℤ
  pub monotonic : ℕ → W
  pub local_time_ms : ℕ → ℤ
  pub client : List Request → Request → Result Failure Response
  pub hmac_sha256 : String → String → String

-- `str(n)` of an integer
unfoldable pub text_of_int : ℤ → String
unfolding decimal
text_of_int (pos n) = decimal n
text_of_int (negsuc n) = "-" ++ decimal (n + 1)

abbrev pub max_ℤ : ℤ → ℤ → ℤ
max_ℤ a b = if ltb_ℤ a b then b else a

abbrev pub exchange_error : String → String → Option String → Failure
exchange_error code message path =
    Failure.api_error
      (bybit_api_error code (Json.str message) Json.null Json.null path none Fields.no_fields)

-- `sorted(params.items())`: the names of the parameters differ
unfoldable pub insert_item : String × Json → Dict Json → Dict Json
insert_item item [] = item ∷ []
insert_item item (other ∷ items) =
    let later = insert_item item items in
    if before item.0 other.0 then item ∷ other ∷ items else other ∷ later

unfoldable pub sorted_items : Dict Json → Dict Json
unfolding insert_item
sorted_items [] = []
sorted_items (item ∷ items) = insert_item item (sorted_items items)

module _ {W : Type 0} ⦃f : Float W⦄ (outside : Outside W) where
  -- `'&'.join(f'{k}={v}' for k, v in ... if v is not None)`
  unfoldable pub join_items : Dict Json → String
  join_items [] = ""
  join_items ((k, v) ∷ []) = if is_null v then "" else k ++ "=" ++ outside.str_of v
  join_items ((k, v) ∷ item ∷ items) =
      let rest = join_items (item ∷ items) in
      if is_null v
      then rest
      else k ++ "=" ++ outside.str_of v ++ (if rest ≟ "" then "" else "&" ++ rest)

  -- `float(n)` of an integer
  abbrev pub float_of_integer : ℤ → W
  float_of_integer (pos n) = f.lit n 0
  float_of_integer (negsuc n) = f.neg (f.lit (n + 1) 0)

  abbrev pub and_then : {A B : Type 0} → Option A → (A → Option B) → Option B
  and_then none k = none
  and_then (some a) k = k a

  -- one candidate of `_extract_server_time_ms`: nanoseconds, seconds or milliseconds by its length
  unfoldable pub time_of : String → Option ℤ
  unfolding size before_point
  time_of text =
      let digits = size (before_point text) in
      and_then (outside.float_of_text text) λ x.
        if leb 18 digits
        then and_then (outside.int_of_float x)
            (λ n. outside.int_of_float (f.quot (float_of_integer n) (f.lit 1_000_000 0)))
        else (if leb digits 10
            then outside.int_of_float (x ⊗ f.lit 1000 0)
            else outside.int_of_float x)

  -- the first candidate that is a time
  unfoldable pub first_time : List Json → Option ℤ
  unfolding time_of
  first_time [] = none
  first_time (raw ∷ candidates) =
      let later = first_time candidates in
      if is_null raw
      then later
      else elim (time_of (outside.str_of raw)) [ none ↦ later | some n ↦ some n ]

  -- `_extract_server_time_ms`
  unfoldable pub extract_server_time_ms : Fields → Result Failure (Option ℤ)
  unfolding first_time attr_get get_or
  extract_server_time_ms payload =
      elim (attr_get "timeNano" Json.null (or_empty (get_json "result" payload))) [
        | Result.raised e ↦ Result.raised e
        | Result.ok nano ↦
            elim (attr_get "timeSecond" Json.null (or_empty (get_json "result" payload))) [
              | Result.raised e ↦ Result.raised e
              | Result.ok second ↦ Result.ok (
                  first_time
                    (get_json "time" payload ∷ nano ∷ second ∷ get_json "time_now" payload ∷ []))
            ]
      ]

  -- `_guard_rate_limit`
  unfoldable pub guard_rate_limit : Action W (Unit {0})
  unfolding allow
  guard_rate_limit s =
      let (allowed, limiter) = allow (outside.monotonic s.readings) s.limiter in
      let s' = record s { limiter = limiter; readings = s.readings + 1 } in
      if allowed then (Result.ok tt, s') else (
        Result.raised (exchange_error "exchange_degraded" "local_rate_limiter_open" none),
        record s' { degraded_reason = some "local_rate_limiter_open" },
      )

  -- `_local_time_ms`
  unfoldable pub local_time : Action W ℤ
  local_time s =
      (Result.ok (outside.local_time_ms s.readings), record s { readings = s.readings + 1 })

  -- a call of the HTTP client
  unfoldable pub send : Request → Action W Response
  send request s = (outside.client s.sent request, record s { sent = request ∷ s.sent })

  module _ (cfg : BybitConfig) where
    -- `_public_get`
    unfoldable pub public_get : String → Dict Json → Action W Fields
    unfolding guard_rate_limit send accept
    public_get path params = do
      guard_rate_limit
      response ← send record {
        method = Method.http_get;
        url = base_url cfg ++ path;
        params = params;
        headers = [];
        content = "";
      }
      accept outside.str_of cfg path response

    abbrev pub synchronised : ℤ → ℤ → ℤ → Session W → Session W
    synchronised local_before local_after server_ms s = record s {
      server_time_offset_ms = some (server_ms -ℤ quot_ℤ (local_before +ℤ local_after) (pos 2));
      server_time_synced_at_ms = some local_after;
      last_server_time_ms = some server_ms;
      last_time_sync_error = none;
    }

    abbrev pub take_time : ℤ → ℤ → Option ℤ → Action W (Unit {0})
    take_time local_before local_after none s = (
      Result.raised (
          exchange_error "bybit_time_sync_failed" "server_time_not_parseable"
            (some "/v5/market/time")),
      record s { last_time_sync_error = some "server_time_not_parseable" },
    )
    take_time local_before local_after (some server_ms) s =
        (Result.ok tt, synchronised local_before local_after server_ms s)

    -- `sync_time`; the halved sum of the readings is rounded towards zero
    unfoldable pub sync_time : Action W Fields
    unfolding local_time public_get extract_server_time_ms quot_ℤ ◌+ℤ◌ ◌-ℤ◌
    sync_time = do
      local_before ← local_time
      payload ← public_get "/v5/market/time" []
      local_after ← local_time
      server_ms ← from_result (extract_server_time_ms payload)
      take_time local_before local_after server_ms
      return payload

    -- the synchronisation is missing or older than its time to live
    abbrev pub is_outdated : ℤ → ℤ → Session W → Bool
    is_outdated now_ms ttl_ms s =
        is_none s.server_time_offset_ms
        || (elim s.server_time_synced_at_ms [ none ↦ true | some at ↦ ltb_ℤ ttl_ms (now_ms -ℤ at) ])

    -- `_ensure_time_sync`
    unfoldable pub ensure_time_sync : Action W (Unit {0})
    unfolding local_time sync_time ◌*ℤ◌ ◌-ℤ◌
    ensure_time_sync = if not cfg.auto_time_sync then return tt else (do
      now_ms ← local_time
      session ← read
      if is_outdated now_ms (max_ℤ (pos 1) cfg.time_sync_ttl_sec *ℤ pos 1000) session
          then (sync_time >>= λ _. return tt)
          else return tt)

    -- `_timestamp_for_private_ms`
    unfoldable pub timestamp_for_private_ms : Action W ℤ
    unfolding ensure_time_sync local_time ◌+ℤ◌ ◌-ℤ◌
    timestamp_for_private_ms = do
      ensure_time_sync
      base ← local_time
      session ← read
      let shifted : ℤ = elim session.server_time_offset_ms [ none ↦ base | some o ↦ base +ℤ o ]
      return (shifted -ℤ max_ℤ (pos 0) cfg.time_safety_margin_ms)

    -- `_sign`
    unfoldable pub sign : String → String → String → String
    sign timestamp recv_window payload =
        outside.hmac_sha256 cfg.api_secret (timestamp ++ cfg.api_key ++ recv_window ++ payload)

    -- `_headers`
    unfoldable pub headers : String → Action W (Dict String)
    unfolding timestamp_for_private_ms sign text_of_int
    headers payload = do
      now ← timestamp_for_private_ms
      let ts = text_of_int now
      let recv = text_of_int cfg.recv_window_ms
      return (
          ("X-BAPI-API-KEY", cfg.api_key)
          ∷ ("X-BAPI-TIMESTAMP", ts)
          ∷ ("X-BAPI-RECV-WINDOW", recv)
          ∷ ("X-BAPI-SIGN", sign ts recv payload)
          ∷ ("Content-Type", "application/json")
          ∷ [])

    abbrev pub no_credentials : Bool
    no_credentials = not (truthy cfg.api_key) || not (truthy cfg.api_secret)

    -- `_private_get`
    unfoldable pub private_get : String → Dict Json → Action W Fields
    unfolding guard_rate_limit join_items sorted_items headers send accept
    private_get path params = do
      raise_when no_credentials (exchange_error "bybit_credentials_missing" "" (some path))
      guard_rate_limit
      signed ← headers (join_items (sorted_items params))
      response ← send record {
        method = Method.http_get;
        url = base_url cfg ++ path;
        params = params;
        headers = signed;
        content = "";
      }
      accept outside.str_of cfg path response

    -- `_private_post`; `body` is the payload as compact JSON
    unfoldable pub private_post : String → String → Action W Fields
    unfolding guard_rate_limit headers send accept
    private_post path body = do
      raise_when no_credentials (exchange_error "bybit_credentials_missing" "" (some path))
      guard_rate_limit
      signed ← headers body
      response ← send record {
        method = Method.http_post;
        url = base_url cfg ++ path;
        params = [];
        headers = signed;
        content = body;
      }
      accept outside.str_of cfg path response
