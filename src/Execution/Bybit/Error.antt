-- ===== src/Execution/Bybit/Error.antt =====
-- The exceptions that a call of the exchange raises: `BybitAPIError` of
-- app/execution/bybit_adapter.py, or another with its class and message.
use Prim.Native.String.{◌++◌}
use one_year_billion.Common.{
  ℕ, not, Option, none, some, [], ◌∷◌, ◌++◌ as append, String, truthy, decimal, join, if◌then◌else◌,
}
use one_year_billion.Common.Int.{pos}
use one_year_billion.Common.Json.{Json, Fields, is_null, truthy_json, put_json}

-- `None` is `Json.null` in `ret_code` and `ret_msg`.
pub record BybitApiError : Type 0 where
  pub code : String
  pub ret_code : Json
  pub ret_msg : Json
  pub path : Option String
  pub http_status : Option ℕ
  pub details : Fields

-- the keyword arguments of the constructor: `self.ret_msg = ret_msg or message`
abbrev pub bybit_api_error :
    String → Json → Json → Json → Option String → Option ℕ → Fields → BybitApiError
bybit_api_error code message ret_code ret_msg path http_status details = record {
  code = code;
  ret_code = ret_code;
  ret_msg = if truthy_json ret_msg then ret_msg else message;
  path = path;
  http_status = http_status;
  details = details;
}

pub data Failure : Type 0 where
  api_error : BybitApiError → Failure
  -- `type(exc).__name__` and `str(exc)`
  other : String → String → Failure

abbrev pub text_or_null : Option String → Json
text_or_null none = Json.null
text_or_null (some s) = Json.str s

-- `safe_dict`: no key and no secret is in it
unfoldable pub safe_dict : BybitApiError → Fields
safe_dict e =
    let base = Fields.field "code" (Json.str e.code) (
      Fields.field "ret_code" e.ret_code (
        Fields.field "ret_msg" e.ret_msg (
          Fields.field "path" (text_or_null e.path) (
            Fields.field "http_status"
              (elim e.http_status [ none ↦ Json.null | some n ↦ Json.int (pos n) ])
              Fields.no_fields)))) in
    if truthy_json (Json.object e.details)
    then put_json "details" (Json.object e.details) base
    else base

-- `type(exc).__name__`
unfoldable pub type_name : Failure → String
type_name (Failure.api_error _) = "BybitAPIError"
type_name (Failure.other name _) = name

-- `str_of` is Python's `str` of a value.
module _ (str_of : Json → String) where
  unfoldable pub reason_code : BybitApiError → String
  reason_code e =
      if not (is_null e.ret_code)
      then e.code ++ "_" ++ str_of e.ret_code
      else elim e.http_status [ none ↦ e.code | some n ↦ e.code ++ "_http_" ++ decimal n ]

  -- the message that the constructor hands to `RuntimeError`
  unfoldable pub error_message : BybitApiError → String
  unfolding join
  error_message e = join ":" (
      e.code
      ∷ append (if is_null e.ret_code then [] else str_of e.ret_code ∷ []) (
          append (if truthy_json e.ret_msg then str_of e.ret_msg ∷ [] else []) (
            append
              (elim e.path [ none ↦ [] | some p ↦ if truthy p then ("path=" ++ p) ∷ [] else [] ])
              (elim e.http_status [ none ↦ [] | some n ↦ ("http=" ++ decimal n) ∷ [] ]))))

  -- `str(exc)`
  unfoldable pub message_of : Failure → String
  unfolding error_message
  message_of (Failure.api_error e) = error_message e
  message_of (Failure.other _ message) = message
