-- ===== src/Config/Phase.antt =====
-- app/config/phase_validator.py: which symbols and strategies a phase of the account may trade.
pub mod Laws
use one_year_billion.Common.{
  Bool, true, false, ◌&&◌, ◌||◌, not, List, [], ◌∷◌, ◌++◌ as append, String, is_in, is_empty, upper,
  lower, live_name, map, sorted_set, Guard, ◌⇒◌, collect, if◌then◌else◌,
}
use one_year_billion.Common.Int.{ℤ, pos, leb_ℤ}

-- `PHASE0_SYMBOLS`
abbrev pub phase0_symbols : List String
phase0_symbols = "BTCUSDT" ∷ "ETHUSDT" ∷ "SOLUSDT" ∷ []

-- `SHADOW_ONLY_PHASE_0_1`
abbrev pub shadow_only_phase_0_1 : List String
shadow_only_phase_0_1 =
    "carry_live" ∷ "statarb_live" ∷ "carry" ∷ "funding" ∷ "funding_carry" ∷ "pair_statarb"
    ∷ "statarb" ∷ "stat_arb" ∷ []

-- `FORBIDDEN_STRATEGIES`
abbrev pub forbidden_strategies : List String
forbidden_strategies =
    "martingale" ∷ "dca" ∷ "spot_grid" ∷ "inverse_futures" ∷ "options" ∷ "copy_trading"
    ∷ "signal_bot" ∷ "portfolio_bot" ∷ []

pub record PhaseCheck : Type 0 where
  pub allowed : Bool
  pub reasons : List String

-- `PhaseCheck(not reasons, reasons)`
abbrev pub phase_check : List String → PhaseCheck
phase_check reasons = record { allowed = is_empty reasons; reasons = reasons }

unfoldable pub validate_symbol_for_phase : String → ℤ → List String → PhaseCheck
unfolding upper
validate_symbol_for_phase symbol phase live_universe = phase_check (
    collect (
      not (is_in (upper symbol) (map upper live_universe)) ⇒ "symbol_not_in_config_live_universe"
      ∷ (leb_ℤ phase (pos 0) && not (is_in (upper symbol) phase0_symbols))
        ⇒ "phase0_symbol_requires_explicit_expansion_evidence"
      ∷ []))

-- the tests of a strategy in small letters, in their order
abbrev pub strategy_guards : String → ℤ → List String → List String → List (Guard String)
strategy_guards strategy phase live shadow =
    is_in strategy forbidden_strategies ⇒ "strategy_forbidden_product_scope"
    ∷ (leb_ℤ phase (pos 1) && is_in strategy shadow_only_phase_0_1)
      ⇒ "strategy_shadow_only_phase_0_1"
    ∷ not (is_in strategy live) ⇒ (
        if is_in strategy shadow || is_in (live_name strategy) shadow_only_phase_0_1
        then "strategy_has_no_live_route"
        else "strategy_not_in_live_permissions")
    ∷ []

unfoldable pub validate_strategy_for_phase : String → ℤ → List String → List String → PhaseCheck
unfolding lower live_name
validate_strategy_for_phase strategy phase live_strategies shadow_strategies = phase_check (
    collect (
      strategy_guards (lower strategy) phase (map lower live_strategies)
        (map lower shadow_strategies)))

unfoldable pub symbol_reasons : ℤ → List String → List String → List String
unfolding validate_symbol_for_phase
symbol_reasons phase universe [] = []
symbol_reasons phase universe (symbol ∷ symbols) =
    append (validate_symbol_for_phase symbol phase universe).reasons
      (symbol_reasons phase universe symbols)

unfoldable pub strategy_reasons : ℤ → List String → List String → List String → List String
unfolding validate_strategy_for_phase
strategy_reasons phase live shadow [] = []
strategy_reasons phase live shadow (strategy ∷ strategies) =
    append (validate_strategy_for_phase strategy phase live shadow).reasons
      (strategy_reasons phase live shadow strategies)

-- `startup_phase_validation` over the values of account_phase.yaml, read as an integer and as texts
unfoldable pub startup_phase_validation : ℤ → List String → List String → List String → List String
unfolding symbol_reasons strategy_reasons sorted_set upper lower
startup_phase_validation phase live_universe live_strategies shadow_strategies =
    let universe = map upper live_universe in
    let live = map lower live_strategies in
    let shadow = map lower shadow_strategies in
    sorted_set
      (append (symbol_reasons phase universe universe) (strategy_reasons phase live shadow live))
