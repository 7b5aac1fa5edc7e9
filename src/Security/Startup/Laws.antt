-- ===== src/Security/Startup/Laws.antt =====
-- What the settings of an application that has started promise.
use one_year_billion.Common.{
  true, ◌≡◌, [], arith, is_empty, is_empty-append, collect, Pass, Pass-collect, Result,
  raise_if-eq-ok, not-false, noted_under, if◌then◌else◌,
}
use one_year_billion.Common.Int.{ℤ}
use one_year_billion.Config.Settings.{Settings, live_requested, can_live_trade}
use one_year_billion.Live.Preflight.Ready.{live_settings}
use one_year_billion.Security.Startup.{
  startup_reasons, validate_startup_security, key_checks, live_checks, trading_checks,
}

pub validated-Pass :
    (s : Settings) (phase : ℤ)
    → validate_startup_security s phase ≡ Result.ok tt
    → Pass (key_checks s)
      × (is_empty (if live_requested s then collect (live_checks s phase) else []) ≡ true)
      × Pass (trading_checks s)
unfolding validate_startup_security startup_reasons
validated-Pass s phase h =
    let quiet = not-false (is_empty (startup_reasons s phase)) (raise_if-eq-ok _ _ h) in
    let (keys, later) = is_empty-append (collect (key_checks s)) _ quiet in
    let (live, trading) =
      is_empty-append (if live_requested s then collect (live_checks s phase) else []) _ later in
    (Pass-collect (key_checks s) keys, live, Pass-collect (trading_checks s) trading)

-- If the application has started with trading enabled, all that the live gate asks of the settings
-- holds, the state of the database apart: the submission is enabled and confirmed, the keys of the
-- exchange are there, no override of the demonstration is on, and the decision to go live is
-- approved as far as it is required.
pub started-live_settings :
    (s : Settings) (phase : ℤ)
    → validate_startup_security s phase ≡ Result.ok tt
    → s.trading_enabled ≡ true
    → live_settings s true ≡ true
unfolding live_requested can_live_trade
started-live_settings s phase h trading =
    let (_, live, able) = validated-Pass s phase h in
    let asked : live_requested s ≡ true = ground arith in
    let passed = Pass-collect (live_checks s phase) (noted_under (live_requested s) _ live asked) in
    ground arith
