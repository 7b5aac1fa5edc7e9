-- ===== src/Regime/Permission.antt =====
-- `strategy_allowed` of app/regime/classifier.py.
use one_year_billion.Common.{
  ℕ, leb, Bool, true, false, not, ◌&&◌, ◌||◌, List, [], ◌∷◌, String, is_in, ◌≟◌, lower,
  if◌then◌else◌,
}
use one_year_billion.Domain.{Regime}
use one_year_billion.Regime.Priority.{same_regime, is_immediate}

pub data Permission : Type 0 where
  strategy_shadow_only_phase_0_1 grid_forbidden_outside_range breakout_requires_confirmed_shift
        regime_blocks_new_entries allowed :
      Permission

abbrev pub shadow_only_names : List String
shadow_only_names =
    "carry" ∷ "carry_live" ∷ "funding" ∷ "funding_carry" ∷ "pair_statarb" ∷ "statarb"
    ∷ "statarb_live" ∷ "stat_arb" ∷ []

abbrev pub allows_breakout : Regime → Bool
allows_breakout r =
    same_regime r Regime.trend_up
    || same_regime r Regime.trend_down
    || same_regime r Regime.high_vol

unfoldable pub strategy_allowed : String → Regime → ℕ → Bool × Permission
strategy_allowed strategy regime phase =
    let name = lower strategy in
    if is_in name shadow_only_names && leb phase 1
    then (false, Permission.strategy_shadow_only_phase_0_1)
    else if name ≟ "micro_grid" && not (same_regime regime Regime.range)
    then (false, Permission.grid_forbidden_outside_range)
    else if name ≟ "breakout" && not (allows_breakout regime)
    then (false, Permission.breakout_requires_confirmed_shift)
    else if is_immediate regime && not (is_in name ("no_trade" ∷ "de_risk" ∷ []))
    then (false, Permission.regime_blocks_new_entries)
    else (true, Permission.allowed)
