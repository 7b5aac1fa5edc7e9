-- ===== src/Live/Preflight/Exact.antt =====
-- When a preflight passes (`run_live_preflight` of app/live/preflight.py).
use one_year_billion.Common.{
  Bool, true, false, not, ◌&&◌, ◌||◌, ◌≡◌, sym, ap, ◌∙◌, inl, inr, Bool-cases, Option, String, ◌≟◌,
  truthy, is_empty, is_empty-snoc, if◌then◌else◌,
}
use one_year_billion.Common.Float.{Float}
use one_year_billion.Common.Json.{Json}
use one_year_billion.Config.Settings.{Settings}
use one_year_billion.Config.Runtime.{RuntimeConfig}
use one_year_billion.Live.Report.{Report, add_reason, all_hold, result_ok, conclude}
use one_year_billion.Live.Report.Laws.{all_hold-put, result_ok-conclude}
use one_year_billion.Live.ExchangeChecks.{Adapter, run_bybit_runtime_checks}
use one_year_billion.Live.ExchangeChecks.Laws.{quiet, quiet-run_bybit_runtime_checks}
use one_year_billion.Live.ExchangeChecks.Required.{exchange_required, exchange_ready-required}
use one_year_billion.Live.ExchangeChecks.Recorded.{all_hold-run_bybit_runtime_checks}
use one_year_billion.Live.Preflight.{
  Repository, unresolved, check_unresolved_incidents, credentials, trading_confirmed, testnet_start,
  normalized_mode, testnet_report, live_report, run_live_preflight,
}
use one_year_billion.Live.Preflight.Ready.{
  live_settings, testnet_settings, quiet-testnet_start, all_hold-testnet_start, live_checked,
  quiet-live_checked, all_hold-live_checked,
}
use one_year_billion.Live.Preflight.Laws.{
  no_incidents, evidence_given, IsCoherentIn, quiet-check_unresolved_incidents,
  checks-check_unresolved_incidents,
}
use one_year_billion.Live.Preflight.Order.{
  confirmed_of, asked_order, unasked_order, quiet-branch, testnet_order, both, reasons_decide,
  parts, required_ready,
}

module _ (str_of : Json → String) {W : Type 0} ⦃f : Float W⦄ (float_of : Json → Option W)
    (dumps : Json → String) (settings : Settings) (runtime : RuntimeConfig W) (db_available : Bool)
    (repository : Option Repository) (adapter : Adapter) where
  -- What the live mode requires, said of the settings and of the answers.
  abbrev pub live_ready : Bool
  live_ready =
      live_settings settings db_available
      && no_incidents settings repository
      && evidence_given settings runtime.config_hash repository
      && (not settings.require_live_preflight
          || exchange_required str_of float_of dumps adapter runtime.live_universe)

  -- What the testnet mode requires.
  abbrev pub testnet_ready : Bool
  testnet_ready =
      testnet_settings settings db_available
      && no_incidents settings repository
      && (truthy settings.bybit_api_key && truthy settings.bybit_api_secret)
      && exchange_required str_of float_of dumps adapter runtime.live_universe

  abbrev ready : Bool
  ready = exchange_required str_of float_of dumps adapter runtime.live_universe

  -- the checks of the exchange add no reason just where it is ready
  quiet-run :
      (r : Report)
      → quiet (run_bybit_runtime_checks str_of float_of dumps adapter runtime.live_universe r)
        ≡ (ready && quiet r)
  quiet-run r =
      quiet-run_bybit_runtime_checks float_of str_of dumps adapter runtime.live_universe r
      ∙ ap (λ b. b && quiet r)
          (exchange_ready-required str_of float_of dumps adapter runtime.live_universe)

  all_hold-run :
      (r : Report)
      → ready ≡ true
      → all_hold r.checks ≡ true
      → all_hold
          (run_bybit_runtime_checks str_of float_of dumps adapter runtime.live_universe r).checks
        ≡ true
  all_hold-run r h =
      all_hold-run_bybit_runtime_checks str_of float_of dumps adapter runtime.live_universe r
        (exchange_ready-required str_of float_of dumps adapter runtime.live_universe ∙ h)

  quiet-live_report :
      IsCoherentIn repository
      → quiet (live_report str_of float_of dumps settings runtime db_available repository adapter)
        ≡ live_ready
  unfolding live_report
  quiet-live_report coherent =
      let checked = live_checked settings runtime db_available repository str_of coherent in
      let before = quiet-live_checked settings runtime db_available repository str_of coherent in
      let ran = quiet-run checked in
      let set = live_settings settings db_available in
      let calm = no_incidents settings repository in
      let given = evidence_given settings runtime.config_hash repository in
      let required = settings.require_live_preflight in
      let confirmed = trading_confirmed settings in
      elim (Bool-cases (settings.require_live_preflight && trading_confirmed settings)) [
        | inl e ↦ rw e (
            ran
            ∙ ap (λ b. ready && b) before
            ∙ asked_order set calm given required confirmed ready e)
        | inr e ↦ rw e (
            before
            ∙ unasked_order set calm given required confirmed ready e
                (confirmed_of settings db_available))
      ]

  all_hold-live_report :
      IsCoherentIn repository
      → live_ready ≡ true
      → all_hold
          (live_report str_of float_of dumps settings runtime db_available repository
            adapter).checks
        ≡ true
  unfolding live_report
  all_hold-live_report coherent h =
      let (set, calm, given, exchange) =
        parts (live_settings settings db_available) (no_incidents settings repository)
          (evidence_given settings runtime.config_hash repository)
          (not settings.require_live_preflight || ready) h in
      let checked = live_checked settings runtime db_available repository str_of coherent in
      let before =
        all_hold-live_checked settings runtime db_available repository str_of coherent given calm
          set in
      elim (Bool-cases (settings.require_live_preflight && trading_confirmed settings)) [
        | inl e ↦ rw e (
            all_hold-run checked
              (required_ready settings.require_live_preflight (trading_confirmed settings) ready
                exchange e)
              before)
        | inr e ↦ rw e before
      ]

  -- In any mode but the testnet's, and with a repository whose answers on the evidence carry a
  -- reason just where they refuse, the preflight is in order exactly where the list `live_ready`
  -- is fulfilled: the settings ask for and confirm live trading, the database, the incidents and
  -- the evidence are as required, and the exchange's answers are if the settings ask for that check.
  pub live_preflight_exact :
      (mode : String)
      → (mode ≟ "testnet") ≡ false
      → IsCoherentIn repository
      → result_ok (
          run_live_preflight str_of float_of dumps settings runtime db_available repository adapter
            mode)
        ≡ live_ready
  unfolding run_live_preflight normalized_mode
  live_preflight_exact mode is_live coherent =
      let report =
        live_report str_of float_of dumps settings runtime db_available repository adapter in
      rw is_live (
        result_ok-conclude report
        ∙ both (quiet report) (all_hold report.checks) live_ready (quiet-live_report coherent)
            (all_hold-live_report coherent))

  quiet-testnet_report :
      quiet (testnet_report str_of float_of dumps settings runtime db_available repository adapter)
      ≡ testnet_ready
  unfolding testnet_report
  quiet-testnet_report =
      let start = testnet_start settings runtime db_available in
      let checked = check_unresolved_incidents str_of settings repository start in
      let before = quiet-check_unresolved_incidents str_of settings repository start in
      let noted = add_reason "testnet_bybit_credentials_missing" checked in
      let run =
        run_bybit_runtime_checks str_of float_of dumps adapter runtime.live_universe checked in
      let ran = quiet-run checked in
      let set_up = quiet-testnet_start settings runtime db_available repository in
      let calm = no_incidents settings repository in
      quiet-branch (credentials settings) noted run
      ∙ testnet_order (testnet_settings settings db_available) calm (credentials settings) ready
          (quiet noted) (quiet run)
          (is_empty-snoc checked.reasons "testnet_bybit_credentials_missing")
          (ran ∙ ap (λ b. ready && b) (before ∙ ap (λ b. calm && b) set_up))

  all_hold-branch :
      (b : Bool) (x y : Report)
      → b ≡ true
      → all_hold y.checks ≡ true
      → all_hold (if not b then x else y).checks ≡ true
  all_hold-branch true x y h k = k
  all_hold-branch false x y h k = cc

  all_hold-testnet_report :
      testnet_ready ≡ true
      → all_hold
          (testnet_report str_of float_of dumps settings runtime db_available repository
            adapter).checks
        ≡ true
  unfolding testnet_report
  all_hold-testnet_report h =
      let start = testnet_start settings runtime db_available in
      let checked = check_unresolved_incidents str_of settings repository start in
      let (set, calm, known, exchange) =
        parts (testnet_settings settings db_available) (no_incidents settings repository)
          (credentials settings) ready h in
      let written = checks-check_unresolved_incidents str_of settings repository start calm in
      let held : all_hold checked.checks ≡ true =
        ap all_hold written
        ∙ all_hold-put unresolved start.checks
            (all_hold-testnet_start settings runtime db_available repository set known) in
      all_hold-branch (credentials settings)
        (add_reason "testnet_bybit_credentials_missing" checked)
        (run_bybit_runtime_checks str_of float_of dumps adapter runtime.live_universe checked) known
        (all_hold-run checked exchange held)

  -- The testnet's preflight is in order exactly where the list `testnet_ready` is fulfilled: the
  -- testnet is selected with a key and a secret and without the overrides of the demonstration, the
  -- database is there if it is required, no incident is open, the exchange's server answers, every
  -- symbol is listed as a linear instrument in trading with positive steps, minima and leverage, the
  -- key may trade, and the wallet and the positions are known. It asks for none of the live flags
  -- and for no evidence.
  pub testnet_preflight_exact :
      result_ok (
        run_live_preflight str_of float_of dumps settings runtime db_available repository adapter
          "testnet")
      ≡ testnet_ready
  unfolding run_live_preflight normalized_mode
  testnet_preflight_exact =
      let report =
        testnet_report str_of float_of dumps settings runtime db_available repository adapter in
      result_ok-conclude report
      ∙ both (quiet report) (all_hold report.checks) testnet_ready quiet-testnet_report
          all_hold-testnet_report

  -- A preflight that is not in order has a reason: with answers on the evidence that carry a reason
  -- just where they refuse, a result without reasons is in order, whatever the mode.
  pub blocked_preflight_has_reason :
      (mode : String)
      → IsCoherentIn repository
      → (let p =
            run_live_preflight str_of float_of dumps settings runtime db_available repository
              adapter mode in
          is_empty p.reasons ≡ result_ok p)
  unfolding run_live_preflight conclude
  blocked_preflight_has_reason mode coherent = elim (Bool-cases (mode ≟ "testnet")) [
    | inl e ↦ rw e (
        reasons_decide
          (testnet_report str_of float_of dumps settings runtime db_available repository adapter)
          (λ q. all_hold-testnet_report (sym quiet-testnet_report ∙ q)))
    | inr e ↦ rw e (
        reasons_decide
          (live_report str_of float_of dumps settings runtime db_available repository adapter)
          (λ q. all_hold-live_report coherent (sym (quiet-live_report coherent) ∙ q)))
  ]
