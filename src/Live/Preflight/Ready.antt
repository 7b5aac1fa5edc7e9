-- ===== src/Live/Preflight/Ready.antt =====
-- What the settings, the incidents and the evidence ask for before the exchange is asked.
use one_year_billion.Common.{
  Bool, true, not, ◌&&◌, ◌||◌, truthy, ◌≡◌, refl, arith, Option, String, get,
}
use one_year_billion.Common.Json.{Json}
use one_year_billion.Config.Settings.{Settings}
use one_year_billion.Config.Runtime.{RuntimeConfig}
use one_year_billion.Live.Report.{Report, check_of, all_hold}
use one_year_billion.Live.Report.Laws.{all_hold-put, is_set-put}
use one_year_billion.Live.ExchangeChecks.Laws.{quiet}
use one_year_billion.Live.Preflight.{
  Repository, unresolved, check_unresolved_incidents, check_evidence, credentials, env_approved,
  testnet_start, live_start,
}
use one_year_billion.Live.Preflight.Laws.{
  no_incidents, evidence_given, IsCoherentIn, quiet-check_unresolved_incidents,
  checks-check_unresolved_incidents, quiet-check_evidence, all_hold-check_evidence,
}

-- what the settings ask for before live trading
abbrev pub live_settings : Settings → Bool → Bool
live_settings settings db_available =
    settings.enable_live_submit
    && (settings.trading_enabled
        && settings.bybit_live_confirm
        && (truthy settings.bybit_api_key && truthy settings.bybit_api_secret))
    && not settings.demo_mode
    && not settings.allow_demo_ml
    && (not settings.require_db_for_live || db_available)
    && (not settings.require_go_nogo_for_live
        || settings.live_go_nogo_passed && truthy settings.live_approved_by)

abbrev pub testnet_settings : Settings → Bool → Bool
testnet_settings settings db_available =
    settings.bybit_testnet
    && not settings.demo_mode
    && not settings.allow_demo_ml
    && (not settings.require_db_for_live || db_available)

module _ {W : Type 0} (settings : Settings) (runtime : RuntimeConfig W) (db_available : Bool)
    (repository : Option Repository) where
  pub quiet-live_start :
      quiet (live_start settings runtime db_available) ≡ live_settings settings db_available
  unfolding live_start
  quiet-live_start = ground arith

  pub all_hold-live_start :
      live_settings settings db_available ≡ true
      → all_hold (live_start settings runtime db_available).checks ≡ true
  unfolding live_start
  all_hold-live_start h = ground arith

  pub approved-live_start :
      env_approved settings ≡ true
      → check_of "go_no_go_env_approved" (live_start settings runtime db_available) ≡ true
  unfolding live_start get
  approved-live_start h = h

  pub quiet-testnet_start :
      quiet (testnet_start settings runtime db_available) ≡ testnet_settings settings db_available
  unfolding testnet_start
  quiet-testnet_start = ground arith

  pub all_hold-testnet_start :
      testnet_settings settings db_available ≡ true
      → credentials settings ≡ true
      → all_hold (testnet_start settings runtime db_available).checks ≡ true
  unfolding testnet_start
  all_hold-testnet_start h k = ground arith

  module _ (str_of : Json → String) (coherent : IsCoherentIn repository) where
    -- the report of the live mode before the checks of the exchange
    abbrev pub live_checked : Report
    live_checked = check_evidence str_of settings runtime.config_hash repository (
        check_unresolved_incidents str_of settings repository
          (live_start settings runtime db_available))

    pub quiet-live_checked : quiet live_checked ≡ (
        evidence_given settings runtime.config_hash repository
        && (no_incidents settings repository && live_settings settings db_available))
    quiet-live_checked =
        rw
          (
            quiet-check_evidence str_of settings runtime.config_hash repository
                (check_unresolved_incidents str_of settings repository
                  (live_start settings runtime db_available))
                coherent,
            quiet-check_unresolved_incidents str_of settings repository
                (live_start settings runtime db_available),
            quiet-live_start,
          )
          refl

    pub all_hold-live_checked :
        evidence_given settings runtime.config_hash repository ≡ true
        → no_incidents settings repository ≡ true
        → live_settings settings db_available ≡ true
        → all_hold live_checked.checks ≡ true
    all_hold-live_checked given calm set =
        let start = live_start settings runtime db_available in
        let asked = check_unresolved_incidents str_of settings repository start in
        let written = checks-check_unresolved_incidents str_of settings repository start calm in
        all_hold-check_evidence str_of settings runtime.config_hash repository asked given
          (rw written (
            is_set-put unresolved "go_no_go_env_approved" start.checks
              (approved-live_start (ground arith))))
          (rw written (all_hold-put unresolved start.checks (all_hold-live_start set)))
