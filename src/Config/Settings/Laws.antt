-- ===== src/Config/Settings/Laws.antt =====
-- What an environment without the program's variables gives.
use one_year_billion.Common.{
  true, false, ◌≡◌, refl, Option, none, some, inl, inr, sym, Option-cases, String, arith, lower,
}
use one_year_billion.Common.Int.{ℤ}
use one_year_billion.Config.Settings.{
  Settings, settings_from_env, settings_with, bool_env, live_requested, can_live_trade,
}

-- In an environment that sets none of the program's variables, whatever `int` returns, the
-- settings that `Settings()` makes neither ask for live trading nor allow it, and a live gate asks
-- for the database, for the checks of the exchange and for the Go/No-Go decision.
pub default_settings_safe :
    (int_of : String → Option ℤ) (s : Settings)
    → settings_from_env (λ _. none) int_of ≡ some s
    → (live_requested s ≡ false)
      × (can_live_trade s ≡ false)
      × (s.require_db_for_live ≡ true)
      × (s.require_live_preflight ≡ true)
      × (s.require_go_nogo_for_live ≡ true)
unfolding settings_from_env settings_with bool_env lower live_requested can_live_trade
default_settings_safe int_of s h = elim (Option-cases (int_of "14")) [
  | inl e ↦ ground arith
  | inr (days, e) ↦
      let same : settings_with (λ _. none) int_of days ≡ s = ground arith in
      rw (sym same) (refl, refl, refl, refl, refl)
]
