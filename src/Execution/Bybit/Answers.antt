-- ===== src/Execution/Bybit/Answers.antt =====
-- How app/execution/bybit_adapter.py reads an answer of the exchange: what is not a success is an
-- exception.
pub mod Laws
use Prim.Native.String.{◌++◌}
use one_year_billion.Common.{
  ℕ, Bool, true, false, ◌&&◌, ◌||◌, not, Option, none, some, [], ◌∷◌, String, ◌≟◌, ◌==◌, leb, is_in,
  lower, underscore, has_text, decimal, Result, if◌then◌else◌,
}
use one_year_billion.Common.Int.{ℤ, pos}
use one_year_billion.Common.Json.{Json, Fields, is_null, is_text, truthy_json, get_json, get_or}
use one_year_billion.Execution.Bybit.Error.{Failure, BybitApiError, bybit_api_error}
use one_year_billion.Execution.Bybit.Values.{type_of, attr_get, or_else, equals_number}
use one_year_billion.Execution.Bybit.Session.{
  BybitConfig, Response, Session, Action, ◌>>=◌, ◌>>◌, return, raise, from_result, read, update,
}

abbrev pub int_or_null : Option ℤ → Json
int_or_null none = Json.null
int_or_null (some n) = Json.int n

abbrev pub string_or_null : Option String → Json
string_or_null none = Json.null
string_or_null (some s) = Json.str s

-- the test `value in {...}` raises for a value that has no hash
abbrev pub is_unhashable : Json → Bool
is_unhashable (Json.array _) = true
is_unhashable (Json.object _) = true
is_unhashable _ = false

-- `ret_code in {429, 10006}`
abbrev pub is_rate_limit : Json → Bool
is_rate_limit v = equals_number 429 v || equals_number 10006 v

-- `ret_code in (0, '0', None)`
unfoldable pub is_accepted : Json → Bool
is_accepted v = equals_number 0 v || is_text "0" v || is_null v

-- the fields of an error's answer: `ret_code`, and the message if there is one
abbrev pub code_of : Fields → Json
code_of fs = or_else (or_else (get_json "retCode" fs) (get_json "ret_code" fs)) (get_json "code" fs)

abbrev pub detail_of : Fields → Json
detail_of fs =
    or_else
      (or_else (or_else (get_json "retMsg" fs) (get_json "ret_msg" fs)) (get_json "message" fs))
      (get_json "detail" fs)

abbrev pub error_code : Option Json → Json
error_code (some (Json.object fs)) = code_of fs
error_code _ = Json.null

abbrev pub reason_phrase : Response → String
reason_phrase r = if r.reason_phrase ≟ "" then "http_status_error" else r.reason_phrase

abbrev pub error_text : (Json → String) → Response → Option Json → String
error_text str_of r (some (Json.object fs)) =
    if truthy_json (detail_of fs) then str_of (detail_of fs) else reason_phrase r
error_text str_of r _ = reason_phrase r

-- the code of the exception for an unsuccessful status
unfoldable pub status_code_of : ℕ → String → String
unfolding lower underscore has_text
status_code_of status ret_msg =
    let normalized_msg = underscore (lower ret_msg) in
    if status == 401 || status == 403
    then (if has_text normalized_msg "invalid_api_key" || has_text normalized_msg "invalid_api"
        then "invalid_api_key"
        else "bybit_private_auth_failed")
    else (if leb 500 status then "exchange_degraded" else "http_status_error")

abbrev pub note_degraded : {W : Type 0} → String → Session W → Session W
note_degraded reason s = record s { degraded_reason = some reason }

-- `time_sync_status`
unfoldable pub time_sync_status : {W : Type 0} → BybitConfig → Session W → Fields
time_sync_status cfg s = Fields.field "enabled" (Json.bool cfg.auto_time_sync) (
    Fields.field "server_time_offset_ms" (int_or_null s.server_time_offset_ms) (
      Fields.field "synced_at_local_ms" (int_or_null s.server_time_synced_at_ms) (
        Fields.field "last_server_time_ms" (int_or_null s.last_server_time_ms) (
          Fields.field "recv_window_ms" (Json.int cfg.recv_window_ms) (
            Fields.field "time_safety_margin_ms" (Json.int cfg.time_safety_margin_ms) (
              Fields.field "last_error" (string_or_null s.last_time_sync_error)
                Fields.no_fields))))))

-- the answer speaks of the time of the request
abbrev pub is_time_error : (Json → String) → Json → Json → Bool
is_time_error str_of ret_code message =
    str_of ret_code ≟ "10002"
    || has_text (lower (str_of message)) "recv_window"
    || has_text (lower (str_of message)) "timestamp"

-- `r.json()` of an answer, of which the rest reads the fields
abbrev pub fields_of : Option Json → Result Failure Fields
fields_of none = Result.raised (Failure.other "JSONDecodeError" "Expecting value")
fields_of (some (Json.object fs)) = Result.ok fs
fields_of (some v) =
    Result.raised
      (Failure.other "AttributeError" ("'" ++ type_of v ++ "' object has no attribute 'get'"))

module _ (str_of : Json → String) {W : Type 0} where
  -- the part of `_raise_http_status_error` after the first two tests
  unfoldable pub raise_status : Response → String → Action W (Unit {0})
  unfolding status_code_of decimal
  raise_status r path = do
    let ret_msg = error_text str_of r r.json
    update λ s.
        if not (r.status_code == 401 || r.status_code == 403) && leb 500 r.status_code
        then note_degraded ("http_" ++ decimal r.status_code) s
        else s
    raise (
        Failure.api_error (
          bybit_api_error (status_code_of r.status_code ret_msg) (Json.str ret_msg)
            (error_code r.json) (Json.str ret_msg) (some path) (some r.status_code)
            Fields.no_fields))

  -- `_raise_http_status_error`
  unfoldable pub raise_http_status_error : Response → String → Action W (Unit {0})
  unfolding raise_status
  raise_http_status_error r path s =
      if r.status_code == 429
      then (
        Result.raised (
            Failure.api_error (
              bybit_api_error "exchange_degraded" (Json.str "http_429") Json.null Json.null
                (some path) (some r.status_code) Fields.no_fields)),
        note_degraded "http_429" s,
      )
      else (if r.is_success then (Result.ok tt, s) else raise_status r path s)

  -- `_raise_if_bybit_degraded`
  unfoldable pub raise_if_bybit_degraded : Fields → String → Action W (Unit {0})
  unfolding get_or
  raise_if_bybit_degraded payload path s =
      let ret_code = get_json "retCode" payload in
      if is_unhashable ret_code
      then (
        Result.raised (Failure.other "TypeError" ("unhashable type: '" ++ type_of ret_code ++ "'")),
        s,
      )
      else (if is_rate_limit ret_code
          then (
            Result.raised (
                Failure.api_error (
                  bybit_api_error "exchange_degraded"
                    (get_or "retMsg" (Json.str "rate_limit") payload) ret_code
                    (get_json "retMsg" payload) (some path) none Fields.no_fields)),
            note_degraded ("bybit_rate_limit:" ++ str_of ret_code) s,
          )
          else (Result.ok tt, s))

  -- `_raise_if_bybit_rejected`
  unfoldable pub raise_if_bybit_rejected : BybitConfig → Fields → String → Action W (Unit {0})
  unfolding is_accepted time_sync_status lower has_text get_or
  raise_if_bybit_rejected cfg payload path s =
      let ret_code = get_json "retCode" payload in
      let message = get_or "retMsg" (Json.str "unknown") payload in
      if not (is_accepted ret_code)
      then (if is_time_error str_of ret_code message
          then (
            Result.raised (
                Failure.api_error (
                  bybit_api_error "bybit_timestamp_window_error" message ret_code message
                    (some path) none (time_sync_status cfg s))),
            record s { last_time_sync_error = some (str_of message) },
          )
          else (
            Result.raised (
                Failure.api_error (
                  bybit_api_error "bybit_request_rejected" message ret_code message (some path) none
                    Fields.no_fields)),
            s,
          ))
      else (Result.ok tt, s)

  -- the end of each of the three request methods: the tests of an answer, in their order
  unfoldable pub accept : BybitConfig → String → Response → Action W Fields
  unfolding raise_http_status_error raise_if_bybit_degraded raise_if_bybit_rejected
  accept cfg path r = do
    raise_http_status_error r path
    payload ← from_result (fields_of r.json)
    raise_if_bybit_degraded payload path
    raise_if_bybit_rejected cfg payload path
    return payload
