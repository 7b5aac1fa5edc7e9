-- ===== src/Live/Report.antt =====
-- What app/live/preflight.py collects while it checks, and how it ends: `PreflightResult`. `notes` is `data`.
pub mod Laws
use Prim.Native.String.{◌++◌}
use one_year_billion.Common.{
  Bool, true, false, ◌&&◌, not, Option, none, some, List, [], ◌∷◌, ◌++◌ as append, String, ◌≟◌,
  Dict, get, put, is_empty, all, Result, if◌then◌else◌, sorted_set,
}
use one_year_billion.Common.Json.{Json, Fields, put_json}
use one_year_billion.Execution.Bybit.Error.{Failure, type_name, message_of}

-- The local variables `reasons`, `checks` and `data` of a run, and `private_errors` of the checks of
-- the exchange.
pub record Report : Type 0 where
  pub reasons : List String
  pub checks : Dict Bool
  pub notes : Fields
  pub private_errors : List Fields

-- `reasons.append(reason)`
abbrev pub add_reason : String → Report → Report
add_reason reason r = record r { reasons = append r.reasons (reason ∷ []) }

-- `reasons.extend(more)`
abbrev pub add_reasons : List String → Report → Report
add_reasons more r = record r { reasons = append r.reasons more }

-- `if condition: reasons.append(reason)`
abbrev pub add_reason_if : Bool → String → Report → Report
add_reason_if b reason r = if b then add_reason reason r else r

-- `checks[name] = value`
abbrev pub set_check : String → Bool → Report → Report
set_check name value r = record r { checks = put name value r.checks }

abbrev pub is_set : Option Bool → Bool
is_set none = false
is_set (some b) = b

-- `checks.get(name)`, as a condition
abbrev pub check_of : String → Report → Bool
check_of name r = is_set (get name r.checks)

-- `data[name] = value`
abbrev pub set_data : String → Json → Report → Report
set_data name value r = record r { notes = put_json name value r.notes }

-- `all(checks.values())`
abbrev pub all_hold : Dict Bool → Bool
all_hold checks = all (λ c. c.1) checks

pub record PreflightResult : Type 0 where
  pub status : String
  pub reasons : List String
  pub checks : Dict Bool
  pub notes : Fields

-- `PreflightResult.ok`
unfoldable pub result_ok : PreflightResult → Bool
result_ok p = p.status ≟ "ok" && is_empty p.reasons && all_hold p.checks

-- the end of `run_live_preflight`
unfoldable pub conclude : Report → PreflightResult
conclude r = record {
  status = if is_empty r.reasons && all_hold r.checks then "ok" else "blocked";
  reasons = sorted_set r.reasons;
  checks = r.checks;
  notes = r.notes;
}

module _ (str_of : Json → String) where
  -- `_safe_repository_call`
  unfoldable pub safe_repository_call :
      {A : Type 0} → String → String → Result Failure A → A → Report → A × Report
  safe_repository_call check_name reason (Result.ok a) default r = (a, r)
  safe_repository_call check_name reason (Result.raised e) default r = (
    default,
    set_data (check_name ++ "_error") (Json.str (type_name e ++ ":" ++ message_of str_of e))
        (add_reason reason r),
  )
