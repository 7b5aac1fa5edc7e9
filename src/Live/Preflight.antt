-- ===== src/Live/Preflight.antt =====
-- app/live/preflight.py: `run_live_preflight`, the gate of testnet and live trading.
pub mod Laws
pub mod Ready
pub mod Order
pub mod Exact
use Prim.Native.String.{◌++◌}
use one_year_billion.Common.{
  Bool, true, false, ◌&&◌, ◌||◌, not, Option, none, some, List, [], ◌∷◌, ◌++◌ as append, String,
  ◌≟◌, is_empty, length, truthy, Result, Guard, ◌⇒◌, collect, if◌then◌else◌, map,
}
use one_year_billion.Common.Float.{Float}
use one_year_billion.Common.Int.{ℤ, pos}
use one_year_billion.Common.Json.{Json, Items, Fields, items_of}
use one_year_billion.Config.Settings.{Settings}
use one_year_billion.Config.Runtime.{RuntimeConfig}
use one_year_billion.Execution.Bybit.Error.{Failure}
use one_year_billion.Live.Report.{
  Report, PreflightResult, add_reason, add_reasons, add_reason_if, set_check, check_of, set_data,
  conclude, safe_repository_call,
}
use one_year_billion.Live.ExchangeChecks.{Adapter, run_bybit_runtime_checks}

-- the answer of `live_evidence_status`
pub record Evidence : Type 0 where
  pub evidence_ok : Bool
  pub evidence_reasons : List String
  pub evidence_data : Fields

-- What the repository's calls return in a run. `live_evidence_status` is `none` where the object
-- has no such method.
pub record Repository : Type 0 where
  pub unresolved_critical_high : Result Failure (List Json)
  pub live_evidence_status : Option (ℤ → String → Result Failure Evidence)

-- `func()` whose answer is not `None`
abbrev pub answered : {A : Type 0} → Result Failure A → Result Failure (Option A)
answered (Result.ok a) = Result.ok (some a)
answered (Result.raised e) = Result.raised e

abbrev pub unresolved : String
unresolved = "unresolved_critical_high_zero"

module _ (str_of : Json → String) where
  unfoldable pub check_open_incidents : Option (List Json) → Report → Report
  check_open_incidents none r =
      set_data "unresolved_critical_high_count" Json.null (set_check unresolved false r)
  check_open_incidents (some open_high) r =
      add_reason_if (not (is_empty open_high)) "unresolved_critical_high_incidents" (
        set_data "unresolved_critical_high_count" (Json.int (pos (length open_high)))
          (set_check unresolved (is_empty open_high) r))

  -- `_check_unresolved_incidents`
  unfoldable pub check_unresolved_incidents : Settings → Option Repository → Report → Report
  unfolding safe_repository_call check_open_incidents
  check_unresolved_incidents settings none r =
      add_reason_if settings.require_db_for_live "cannot_verify_unresolved_incidents_without_db"
        (set_check unresolved (not settings.require_db_for_live) r)
  check_unresolved_incidents settings (some repository) r =
      let (open_high, r') =
        safe_repository_call str_of "unresolved_critical_high"
          "incidents_table_missing_or_migrations_not_applied"
          (answered repository.unresolved_critical_high) none r in
      check_open_incidents open_high r'

  -- the evidence that the live mode asks the repository for
  unfoldable pub record_evidence : Option Evidence → Report → Report
  record_evidence none r =
      set_data "go_no_go_evidence"
        (Json.object (Fields.field "schema_ready" (Json.bool false) Fields.no_fields))
        (set_check "go_no_go_evidence_verified" false r)
  record_evidence (some e) r = add_reasons e.evidence_reasons (
      set_data "go_no_go_evidence" (Json.object e.evidence_data)
        (set_check "go_no_go_evidence_verified" e.evidence_ok r))

  abbrev pub no_evidence : Report → Report
  no_evidence r =
      add_reason "go_no_go_evidence_db_required" (set_check "go_no_go_evidence_verified" false r)

  unfoldable pub ask_evidence : ℤ → String → Option Repository → Report → Report
  unfolding safe_repository_call record_evidence
  ask_evidence days config_hash none r = no_evidence r
  ask_evidence days config_hash (some repository) r = elim repository.live_evidence_status [
    | none ↦ no_evidence r
    | some status ↦
        let (evidence, r') =
          safe_repository_call str_of "go_no_go_evidence"
            "go_no_go_tables_missing_or_migrations_not_applied" (answered (status days config_hash))
            none r in
        record_evidence evidence r'
  ]

  unfoldable pub check_evidence : Settings → String → Option Repository → Report → Report
  unfolding ask_evidence
  check_evidence settings config_hash repository r =
      if settings.require_go_nogo_for_live
      then (let asked = ask_evidence settings.min_paper_days_required config_hash repository r in
          set_check "go_no_go_approved"
            (check_of "go_no_go_env_approved" asked && check_of "go_no_go_evidence_verified" asked)
            asked)
      else set_check "go_no_go_approved" true (set_check "go_no_go_evidence_verified" true r)

-- `checks['database_available']`
abbrev pub database_ok : Settings → Bool → Bool
database_ok settings db_available = if settings.require_db_for_live then db_available else true

abbrev pub credentials : Settings → Bool
credentials settings = truthy settings.bybit_api_key && truthy settings.bybit_api_secret

abbrev pub trading_confirmed : Settings → Bool
trading_confirmed settings =
    settings.trading_enabled && settings.bybit_live_confirm && credentials settings

-- `go_no_go_env_approved`
abbrev pub env_approved : Settings → Bool
env_approved settings =
    if settings.require_go_nogo_for_live
    then settings.live_go_nogo_passed && truthy settings.live_approved_by
    else true

-- the reasons of the testnet mode from the settings, in their order
abbrev pub testnet_guards : Settings → Bool → List (Guard String)
testnet_guards settings db_available =
    not settings.bybit_testnet ⇒ "testnet_endpoint_not_selected"
    ∷ settings.demo_mode ⇒ "demo_mode_forbidden_for_testnet_preflight"
    ∷ settings.allow_demo_ml ⇒ "demo_ml_override_forbidden_for_testnet_preflight"
    ∷ not (database_ok settings db_available) ⇒ "database_required_for_testnet_preflight"
    ∷ []

-- the reasons of the live mode from the settings, in their order
abbrev pub live_guards : Settings → Bool → List (Guard String)
live_guards settings db_available =
    not settings.enable_live_submit ⇒ "cas_enable_live_submit_false"
    ∷ not (trading_confirmed settings) ⇒ "trading_flags_or_bybit_credentials_missing"
    ∷ settings.demo_mode ⇒ "demo_mode_forbidden_for_live"
    ∷ settings.allow_demo_ml ⇒ "demo_ml_override_forbidden_for_live"
    ∷ not (database_ok settings db_available) ⇒ "database_required_for_live"
    ∷ not (env_approved settings) ⇒ "go_no_go_pass_and_approver_required"
    ∷ []

pub data Mode : Type 0 where
  -- `normalized_mode`: any other text than 'testnet' is the live mode
  testnet live : Mode

unfoldable pub normalized_mode : String → Mode
normalized_mode mode = if mode ≟ "testnet" then Mode.testnet else Mode.live

abbrev pub mode_name : Mode → String
mode_name Mode.testnet = "testnet"
mode_name Mode.live = "live"

module _ {W : Type 0} where
  abbrev pub initial_data : RuntimeConfig W → Mode → Fields
  initial_data runtime mode = Fields.field "exchange_scope" (Json.str "bybit_v5_linear_usdt_only") (
      Fields.field "phase" (Json.int runtime.phase) (
        Fields.field "config_hash" (Json.str runtime.config_hash) (
          Fields.field "live_universe" (Json.array (items_of (map Json.str runtime.live_universe)))
            (Fields.field "preflight_mode" (Json.str (mode_name mode)) Fields.no_fields))))

  unfoldable pub testnet_start : Settings → RuntimeConfig W → Bool → Report
  testnet_start settings runtime db_available =
      set_data "go_no_go_required_for_testnet" (Json.bool false) (
        set_data "live_submit_required" (Json.bool false) record {
          reasons = collect (testnet_guards settings db_available);
          checks =
              ("testnet_endpoint_selected", settings.bybit_testnet)
              ∷ ("demo_mode_off", not settings.demo_mode)
              ∷ ("demo_ml_override_off", not settings.allow_demo_ml)
              ∷ ("database_available", database_ok settings db_available)
              ∷ ("testnet_credentials_present", credentials settings)
              ∷ [];
          notes = initial_data runtime Mode.testnet;
          private_errors = [];
        })

  unfoldable pub live_start : Settings → RuntimeConfig W → Bool → Report
  live_start settings runtime db_available = record {
    reasons = collect (live_guards settings db_available);
    checks =
        ("live_submit_explicitly_enabled", settings.enable_live_submit)
        ∷ ("trading_flags_confirmed", trading_confirmed settings)
        ∷ ("demo_mode_off", not settings.demo_mode)
        ∷ ("demo_ml_override_off", not settings.allow_demo_ml)
        ∷ ("database_available", database_ok settings db_available)
        ∷ ("go_no_go_env_approved", env_approved settings)
        ∷ [];
    notes = initial_data runtime Mode.live;
    private_errors = [];
  }

module _ (str_of : Json → String) {W : Type 0} ⦃f : Float W⦄ (float_of : Json → Option W)
    (dumps : Json → String) where
  unfoldable pub testnet_report :
      Settings → RuntimeConfig W → Bool → Option Repository → Adapter → Report
  unfolding testnet_start check_unresolved_incidents run_bybit_runtime_checks
  testnet_report settings runtime db_available repository adapter =
      let checked =
        check_unresolved_incidents str_of settings repository
          (testnet_start settings runtime db_available) in
      if not (credentials settings)
      then add_reason "testnet_bybit_credentials_missing" checked
      else run_bybit_runtime_checks str_of float_of dumps adapter runtime.live_universe checked

  unfoldable pub live_report :
      Settings → RuntimeConfig W → Bool → Option Repository → Adapter → Report
  unfolding live_start check_unresolved_incidents check_evidence run_bybit_runtime_checks
  live_report settings runtime db_available repository adapter =
      let checked = check_evidence str_of settings runtime.config_hash repository (
        check_unresolved_incidents str_of settings repository
          (live_start settings runtime db_available)) in
      if settings.require_live_preflight && trading_confirmed settings
      then run_bybit_runtime_checks str_of float_of dumps adapter runtime.live_universe checked
      else checked

  -- The adapter is the one that is passed, or the one that `build_adapter` makes of the settings.
  unfoldable pub run_live_preflight :
      Settings → RuntimeConfig W → Bool → Option Repository → Adapter → String → PreflightResult
  unfolding conclude normalized_mode testnet_report live_report
  run_live_preflight settings runtime db_available repository adapter mode =
      conclude (elim (normalized_mode mode) [
        | Mode.testnet ↦ testnet_report settings runtime db_available repository adapter
        | Mode.live ↦ live_report settings runtime db_available repository adapter
      ])
