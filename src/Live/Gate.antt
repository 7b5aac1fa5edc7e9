-- ===== src/Live/Gate.antt =====
-- app/live/gate.py: the single place where a live submission is refused, and the errors with which
-- a route answers.
pub mod Laws
use one_year_billion.Common.{
  ℕ, Bool, true, false, not, Option, List, [], ◌∷◌, String, Dict, map, Result, if◌then◌else◌,
}
use one_year_billion.Common.Float.{Float}
use one_year_billion.Common.Json.{Json, Fields, items_of}
use one_year_billion.Config.Settings.{Settings}
use one_year_billion.Config.Runtime.{RuntimeConfig}
use one_year_billion.Live.Report.{PreflightResult, result_ok}
use one_year_billion.Live.ExchangeChecks.{Adapter}
use one_year_billion.Live.Preflight.{Repository, run_live_preflight}

-- `HTTPException`
pub record HttpError : Type 0 where
  pub status_code : ℕ
  pub detail : Json

abbrev pub http_error : ℕ → String → HttpError
http_error status_code detail = record { status_code = status_code; detail = Json.str detail }

abbrev pub checks_json : Dict Bool → Fields
checks_json [] = Fields.no_fields
checks_json ((name, b) ∷ checks) = Fields.field name (Json.bool b) (checks_json checks)

-- the answer to a preflight's result: none of its parameters passes a result that is not in order
unfoldable pub gate : PreflightResult → Result HttpError Fields
unfolding result_ok
gate p =
    let checks = Json.object (checks_json p.checks) in
    if not (result_ok p)
    then Result.raised record {
      status_code = 423;
      detail = Json.object (
          Fields.field "live_submit_blocked" (Json.array (items_of (map Json.str p.reasons)))
            (Fields.field "checks" checks Fields.no_fields));
    }
    else Result.ok
        (Fields.field "checks" checks (Fields.field "data" (Json.object p.notes) Fields.no_fields))

-- The arguments are the application's state; the adapter is made of the settings.
module _ (str_of : Json → String) {W : Type 0} ⦃f : Float W⦄ (float_of : Json → Option W)
    (dumps : Json → String) where
  unfoldable pub assert_live_submit_allowed :
      Settings → RuntimeConfig W → Bool → Option Repository → Adapter → Result HttpError Fields
  unfolding gate run_live_preflight
  assert_live_submit_allowed settings runtime db_available repository adapter = gate (
      run_live_preflight str_of float_of dumps settings runtime db_available repository adapter
        "live")
