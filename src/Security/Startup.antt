-- ===== src/Security/Startup.antt =====
-- app/security/startup_guard.py: the application is not made with unsafe settings.
pub mod Laws
use Prim.Native.String.{◌++◌}
use one_year_billion.Common.{
  Bool, true, false, ◌&&◌, ◌||◌, not, List, [], ◌∷◌, ◌++◌ as append, String, ◌≟◌, is_in, truthy,
  size, ltb, is_empty, join, sorted_set, Guard, ◌⇒◌, collect, Result, raise_if, if◌then◌else◌,
}
use one_year_billion.Common.Int.{ℤ, pos, ltb_ℤ}
use one_year_billion.Config.Settings.{Settings, live_requested, can_live_trade}

-- `UNSAFE_KEYS`
abbrev pub unsafe_keys : List String
unsafe_keys =
    "" ∷ "change-me-long-random-key" ∷ "change-me-readonly-key" ∷ "changeme" ∷ "password" ∷ []

abbrev pub key_checks : Settings → List (Guard String)
key_checks s =
    (s.operator_api_key ≟ s.readonly_api_key) ⇒ "operator_and_readonly_keys_must_differ"
    ∷ (not (s.app_env ≟ "local") && is_in s.readonly_api_key unsafe_keys)
      ⇒ "readonly_api_key_must_be_set_for_nonlocal_env"
    ∷ []

-- the checks under `if live_requested`
abbrev pub live_checks : Settings → ℤ → List (Guard String)
live_checks s phase =
    (is_in s.operator_api_key unsafe_keys || ltb (size s.operator_api_key) 24)
      ⇒ "operator_api_key_unsafe_for_live"
    ∷ (not (truthy s.bybit_api_key) || not (truthy s.bybit_api_secret))
      ⇒ "bybit_credentials_required_for_live"
    ∷ not s.bybit_live_confirm ⇒ "bybit_live_confirm_required"
    ∷ (s.trading_enabled && not s.enable_live_submit)
      ⇒ "trading_enabled_requires_cas_enable_live_submit"
    ∷ ((s.enable_live_submit && s.require_go_nogo_for_live)
        && (not s.live_go_nogo_passed || not (truthy s.live_approved_by)))
      ⇒ "go_no_go_pass_and_approver_required_for_live_submit"
    ∷ s.allow_demo_ml ⇒ "demo_ml_override_forbidden_for_live"
    ∷ s.demo_mode ⇒ "demo_mode_forbidden_for_live"
    ∷ (not s.bybit_testnet && not s.trading_enabled)
      ⇒ "prod_bybit_endpoint_requires_trading_enabled_explicit_policy"
    ∷ ltb_ℤ phase (pos 0) ⇒ "invalid_runtime_phase"
    ∷ []

abbrev pub trading_checks : Settings → List (Guard String)
trading_checks s =
    (s.trading_enabled && not (can_live_trade s))
      ⇒ "trading_enabled_without_live_submit_gate_or_confirmed_credentials"
    ∷ []

-- `reasons` of `validate_startup_security`
unfoldable pub startup_reasons : Settings → ℤ → List String
unfolding live_requested can_live_trade size
startup_reasons s phase = append (collect (key_checks s)) (
    append (if live_requested s then collect (live_checks s phase) else [])
      (collect (trading_checks s)))

-- `phase` is `runtime_config.phase`; the error is the text of the RuntimeError.
unfoldable pub validate_startup_security : Settings → ℤ → Result String (Unit {0})
unfolding startup_reasons sorted_set join
validate_startup_security s phase =
    let reasons = startup_reasons s phase in
    raise_if (not (is_empty reasons)) ("unsafe_startup_security:" ++ join ";" (sorted_set reasons))
