-- ===== src/Config/Tests.antt =====
-- Variables of the environment on concrete values.
use one_year_billion.Common.{
  map, is_in, fails_at, [], ◌∷◌, ◌≡◌, refl, true, false, some, none, String, Option, lower, ◌≟◌,
  if◌then◌else◌,
}
use one_year_billion.Common.Int.{ℤ, pos}
use one_year_billion.Common.Fixed.{Fixed, fixed_float}
use one_year_billion.Config.Phase.{validate_strategy_for_phase}
use one_year_billion.Config.Phase.Laws.{allowed_strategy_has_route}
use one_year_billion.Execution.Router.{refusals}
use one_year_billion.Execution.Samples.{signal_1, risk_1}
use one_year_billion.Config.Settings.{bool_env}

-- in place of `int`
abbrev fourteen : String → Option ℤ
fourteen _ = some (pos 14)

abbrev variables : String → Option String
variables name = if name ≟ "CAS_DEMO_MODE" then some "Yes" else none

flags_read :
    (bool_env variables fourteen "CAS_DEMO_MODE" false ≡ true)
    × (bool_env variables fourteen "TRADING_ENABLED" false ≡ false)
    × (bool_env variables fourteen "BYBIT_TESTNET" true ≡ true)
unfolding bool_env lower
flags_read = (refl, refl, refl)

allowed_strategy_has_route_example :
    (is_in (lower "breakout") (map lower ("Breakout" ∷ [])) ≡ true)
    × (fails_at 0 (refusals {W = Fixed} 500 signal_1 risk_1) ≡ false)
    × (fails_at 1 (refusals {W = Fixed} 500 signal_1 risk_1) ≡ false)
unfolding validate_strategy_for_phase lower
allowed_strategy_has_route_example =
    allowed_strategy_has_route (pos 0) ("Breakout" ∷ []) [] 500 signal_1 risk_1 refl refl refl
