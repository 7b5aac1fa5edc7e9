-- ===== src/Config/Phase/Laws.antt =====
-- A strategy that a phase allows, and what the order router says of its name.
use one_year_billion.Common.{
  Bool, true, false, ◌&&◌, ◌≡◌, arith, List, String, is_in, lower, map, Pass-collect, not-false, ℕ,
  fails_at,
}
use one_year_billion.Common.Float.{Float}
use one_year_billion.Common.Int.{ℤ, pos, leb_ℤ}
use one_year_billion.Domain.{SignalCandidate, RiskDecision}
use one_year_billion.Execution.Router.{refusals, shadow_only_strategies}
use one_year_billion.Config.Phase.{
  shadow_only_phase_0_1, strategy_guards, validate_strategy_for_phase,
}

-- the two lists of the router have the strategies of the validator's
same_shadow_only : (s : String) → is_in s shadow_only_strategies ≡ is_in s shadow_only_phase_0_1
same_shadow_only s = ground arith

second_fails : (a b : Bool) → (a && b) ≡ false → a ≡ true → b ≡ false
second_fails a b h k = ground arith

-- A strategy that the validator allows in a phase up to 1 is one of the live strategies, and a
-- candidate of it that is not marked for observation is refused by the order router neither as a
-- forbidden product nor as one without a live route.
pub allowed_strategy_has_route :
    {W R : Type 0} ⦃f : Float W⦄ (phase : ℤ) (live shadow : List String) (now : ℕ)
    (signal : SignalCandidate W) (risk : RiskDecision W R)
    → leb_ℤ phase (pos 1) ≡ true
    → (validate_strategy_for_phase signal.strategy phase live shadow).allowed ≡ true
    → signal.shadow_only ≡ false
    → (is_in (lower signal.strategy) (map lower live) ≡ true)
      × (fails_at 0 (refusals now signal risk) ≡ false)
      × (fails_at 1 (refusals now signal risk) ≡ false)
unfolding validate_strategy_for_phase refusals
allowed_strategy_has_route phase live shadow now signal risk early allowed open_ =
    let (forbidden, (only_shadow, (listed, _))) =
      Pass-collect
        (strategy_guards (lower signal.strategy) phase (map lower live) (map lower shadow))
        allowed in
    let apart = second_fails (leb_ℤ phase (pos 1)) _ only_shadow early in
    (
      not-false (is_in (lower signal.strategy) (map lower live)) listed,
      forbidden,
      rw (open_, same_shadow_only (lower signal.strategy)) apart,
    )
