-- ===== src/Live/ExchangeChecks.antt =====
-- The checks of the exchange in app/live/preflight.py: `_run_bybit_runtime_checks` with its helpers.
-- None of them sends an order.
pub mod Specs
pub mod Hints
pub mod Laws
pub mod Required
pub mod Recorded
use Prim.Native.String.{◌++◌}
use one_year_billion.Common.{
  Bool, true, false, ◌&&◌, ◌||◌, not, Option, none, some, List, [], ◌∷◌, ◌++◌ as append, String,
  ◌≟◌, is_in, any, is_empty, Result, ◌>>=◌, if◌then◌else◌, lower, has_text, map,
}
use one_year_billion.Common.Float.{Float}
use one_year_billion.Common.Json.{
  Json, Items, Fields, truthy_json, is_null, is_text, get_json, get_or, put_json, items_of,
}
use one_year_billion.Execution.Bybit.Error.{
  Failure, BybitApiError, safe_dict, reason_code, type_name, message_of,
}
use one_year_billion.Live.Report.{
  Report, add_reason, add_reasons, add_reason_if, set_check, check_of, set_data,
}
use one_year_billion.Execution.Bybit.Values.{attr_get, or_empty, first_of, or_else}
use one_year_billion.Live.ExchangeChecks.Specs.{check_specs}
use one_year_billion.Live.ExchangeChecks.Hints.{operator_hint}

-- What the calls of the adapter return in a run. A field is `none` where the object has no such
-- method; `time_sync_status` is read after the synchronisation and at the end.
pub record Adapter : Type 0 where
  pub sync_time : Option (Result Failure Fields)
  pub time_sync_status : Option Fields
  pub final_time_sync_status : Option Fields
  pub get_server_time : Result Failure Fields
  pub runtime_instruments_info : String → Result Failure Fields
  pub get_api_key_info : Result Failure Fields
  -- with the account type, or without an argument
  pub get_wallet_balance : Option String → Result Failure Fields
  pub get_positions : Result Failure Fields

-- `hasattr(adapter, 'time_sync_status')`
abbrev pub record_status : Option Fields → Report → Report
record_status none r = r
record_status (some status) r = set_data "bybit_time_sync" (Json.object status) r

abbrev pub server_of : Adapter → Result Failure Fields
server_of adapter = elim adapter.sync_time [ none ↦ adapter.get_server_time | some m ↦ m ]

abbrev pub status_after_sync : Adapter → Option Fields
status_after_sync adapter = elim adapter.sync_time [
  | none ↦ none
  | some _ ↦ adapter.time_sync_status
]

unfoldable pub record_server : Option Fields → Result Failure Fields → Report → Report
record_server status (Result.ok server) r = set_check "bybit_public_api_reachable" true (
    set_data "bybit_server_time" (or_else (get_json "time" server) (get_json "result" server))
      (record_status status r))
record_server status (Result.raised e) r =
    add_reason ("bybit_public_api_unreachable:" ++ type_name e)
      (set_check "bybit_public_api_reachable" false r)

unfoldable pub public_check : Adapter → Report → Report
unfolding record_server
public_check adapter r = record_server (status_after_sync adapter) (server_of adapter) r

-- `_try_wallet_balance` without the handlers: the account types in turn
abbrev pub is_signature_error : (Json → String) → Failure → Bool
is_signature_error str_of e =
    type_name e ≟ "TypeError" && has_text (message_of str_of e) "account_type"

abbrev first_error_of : Option Failure → Failure → Failure
first_error_of none e = e
first_error_of (some first) e = first

module _ (str_of : Json → String) where
  unfoldable pub try_accounts :
      Adapter → List String → Option Failure → Result Failure (Fields × String)
  unfolding has_text type_name message_of
  try_accounts adapter [] none = Result.raised (Failure.other "AssertionError" "")
  try_accounts adapter [] (some first) = Result.raised first
  try_accounts adapter (t ∷ ts) first = elim (adapter.get_wallet_balance (some t)) [
    | Result.ok account ↦ Result.ok (account, t)
    | Result.raised e ↦
        let next = try_accounts adapter ts (some (first_error_of first e)) in
        if is_signature_error str_of e
        then (do account ← adapter.get_wallet_balance none; Result.ok (account, "UNIFIED"))
        else next
  ]

  unfoldable pub try_wallet_balance : Adapter → Result Failure (Fields × String)
  unfolding try_accounts
  try_wallet_balance adapter = try_accounts adapter ("UNIFIED" ∷ "CONTRACT" ∷ []) none

  -- `_safe_bybit_error`
  unfoldable pub safe_bybit_error : Failure → Fields
  unfolding safe_dict message_of
  safe_bybit_error (Failure.api_error e) = safe_dict e
  safe_bybit_error (Failure.other name message) = Fields.field "code" (Json.str name) (
      Fields.field "ret_code" Json.null (
        Fields.field "ret_msg" (Json.str message)
          (Fields.field "path" Json.null (Fields.field "http_status" Json.null Fields.no_fields))))

  -- `_bybit_reason`
  unfoldable pub bybit_reason : String → Failure → String
  unfolding reason_code
  bybit_reason prefix (Failure.api_error e) = prefix ++ ":" ++ reason_code str_of e
  bybit_reason prefix (Failure.other name _) = prefix ++ ":" ++ name

  -- the handler of a private call: the check, the error with its place, and the reason
  unfoldable pub private_failure : String → String → String → Failure → Report → Report
  unfolding safe_bybit_error bybit_reason put_json
  private_failure check place prefix e r = add_reason (bybit_reason prefix e) (
      let failed = set_check check false r in
      record failed {
        private_errors =
            append failed.private_errors
              (put_json "check" (Json.str place) (safe_bybit_error e) ∷ []);
      })

  -- `dumps` is `json.dumps(value, ensure_ascii=False, sort_keys=True)`.
  module _ (dumps : Json → String) where
    unfoldable pub api_key_permissions_allow_linear_trade : Fields → Bool
    unfolding has_text
    api_key_permissions_allow_linear_trade payload =
        let text = lower (dumps (or_else (get_json "result" payload) (Json.object payload))) in
        any (has_text text) ("contracttrade" ∷ "contract_trade" ∷ "derivatives" ∷ "linear" ∷ [])
        && any (has_text text) ("trade" ∷ "order" ∷ "write" ∷ [])

    unfoldable pub private_check : Adapter → Report → Report
    unfolding private_failure api_key_permissions_allow_linear_trade
    private_check adapter r = elim adapter.get_api_key_info [
      | Result.ok key_info ↦
          let allowed = api_key_permissions_allow_linear_trade key_info in
          add_reason_if (not allowed) "bybit_api_key_trade_permission_not_verified" (
            set_check "bybit_api_key_trade_permission_verified" allowed (
              set_data "bybit_private_auth_check" (Json.str "ok")
                (set_check "bybit_private_api_verified" true r)))
      | Result.raised e ↦ set_check "bybit_api_key_trade_permission_verified" false (
          private_failure "bybit_private_api_verified" "query_api_key"
            "bybit_private_api_auth_failed" e r)
    ]

  -- `data['account_mode_hint']`
  unfoldable pub account_mode_hint : Fields → String → Result Failure Json
  unfolding attr_get first_of get_or
  account_mode_hint account account_type =
      if truthy_json (get_json "result" account)
      then (do
        accounts ←
            attr_get "list" (Json.array (Items.item (Json.object Fields.no_fields) Items.end))
              (or_empty (get_json "result" account))
        first ← first_of accounts
        attr_get "accountType" Json.null first)
      else Result.ok (Json.str account_type)

  abbrev pub wallet_failure : Failure → Report → Report
  wallet_failure =
      private_failure "bybit_wallet_balance_verified" "wallet_balance" "bybit_wallet_balance_failed"

  unfoldable pub record_hint : Result Failure Json → Report → Report
  unfolding private_failure
  record_hint (Result.ok hint) r =
      set_check "bybit_wallet_balance_verified" true (set_data "account_mode_hint" hint r)
  record_hint (Result.raised e) r = wallet_failure e r

  unfoldable pub record_wallet : Result Failure (Fields × String) → Report → Report
  unfolding record_hint account_mode_hint private_failure
  record_wallet (Result.ok (account, account_type)) r =
      record_hint (account_mode_hint account account_type) (
        set_data "account_mode_checked" (Json.str account_type)
          (set_data "account_runtime_check" (Json.str "ok") r))
  record_wallet (Result.raised e) r = wallet_failure e r

  unfoldable pub wallet_check : Adapter → Report → Report
  unfolding try_wallet_balance record_wallet
  wallet_check adapter r = record_wallet (try_wallet_balance adapter) r

  unfoldable pub positions_check : Adapter → Report → Report
  unfolding private_failure
  positions_check adapter r = elim adapter.get_positions [
    | Result.ok positions ↦
        let present = not (is_null (get_json "result" positions)) in
        add_reason_if (not present) "bybit_positions_response_without_result" (
          set_check "bybit_positions_verified" present
            (set_data "positions_runtime_check" (Json.str (if present then "ok" else "unknown")) r))
    | Result.raised e ↦
        private_failure "bybit_positions_verified" "position_list" "bybit_positions_failed" e r
  ]

unfoldable pub private_summary : Report → Report
private_summary r =
    set_check "bybit_private_api_and_permissions_verified"
      (check_of "bybit_private_api_verified" r
        && check_of "bybit_api_key_trade_permission_verified" r
        && check_of "bybit_wallet_balance_verified" r
        && check_of "bybit_positions_verified" r)
      r

module _ (str_of : Json → String) where
  unfoldable pub record_errors : Report → Report
  unfolding operator_hint
  record_errors r =
      if is_empty r.private_errors
      then r
      else set_data "operator_private_api_hint"
          (Json.array (items_of (map Json.str (operator_hint str_of r.private_errors))))
          (set_data "bybit_private_errors"
            (Json.array (items_of (map Json.object r.private_errors))) r)

  module _ {W : Type 0} ⦃f : Float W⦄ (float_of : Json → Option W) (dumps : Json → String) where
    unfoldable pub specs_check : Adapter → List String → Report → Report
    unfolding check_specs
    specs_check adapter universe r =
        let (specs, spec_reasons) =
          check_specs float_of adapter.runtime_instruments_info universe (Fields.no_fields, []) in
        set_data "runtime_specs" (Json.object specs) (
          set_check "runtime_instrument_specs_verified" (is_empty spec_reasons)
            (add_reasons spec_reasons r))

    -- `_run_bybit_runtime_checks`
    unfoldable pub run_bybit_runtime_checks : Adapter → List String → Report → Report
    unfolding public_check specs_check private_check wallet_check positions_check private_summary
        record_errors
    run_bybit_runtime_checks adapter universe r = record_errors (
        record_status adapter.final_time_sync_status (
          private_summary (
            positions_check str_of adapter (
              wallet_check str_of adapter (
                private_check str_of dumps adapter (
                  specs_check adapter universe
                    (public_check adapter (record r { private_errors = [] }))))))))
