-- ===== src/Strategies/Orchestrator.antt =====
-- app/strategies/orchestrator.py. The candidate of each strategy has its own identifiers.
use one_year_billion.Common.{ℕ, Bool, true, false, List, [], ◌∷◌, ◌++◌, String, if◌then◌else◌}
use one_year_billion.Common.Float.{Float}
use one_year_billion.Domain.{SignalCandidate, MarketSnapshot, AccountSnapshot, RegimeDecision}
use one_year_billion.Regime.Classifier.{Reason}
use one_year_billion.Regime.Permission.{strategy_allowed}
use one_year_billion.Strategies.Base.{Ids, HashPayload}
use one_year_billion.Strategies.Breakout.{propose_breakout}
use one_year_billion.Strategies.MicroGrid.{propose_micro_grid}
use one_year_billion.Strategies.CarryShadow.{propose_carry_shadow}
use one_year_billion.Strategies.StatarbShadow.{propose_statarb_shadow}

-- a strategy's name, and its `propose` with the identifiers of its candidate
pub record Strategy (W : Type 0) : Type 0 where
  pub name : String
  pub propose :
      MarketSnapshot W → AccountSnapshot W → RegimeDecision W Reason → List (SignalCandidate W)

-- `c for c in ... if c.shadow_only`
unfoldable pub shadow_only_of : {W : Type 0} → List (SignalCandidate W) → List (SignalCandidate W)
shadow_only_of [] = []
shadow_only_of (c ∷ cs) = let rest = shadow_only_of cs in if c.shadow_only then c ∷ rest else rest

module _ {W : Type 0} (market : MarketSnapshot W) (account : AccountSnapshot W)
    (regime : RegimeDecision W Reason) where
  -- the first loop of `propose`
  unfoldable pub live_candidates : List (Strategy W) → List (SignalCandidate W)
  live_candidates [] = []
  live_candidates (s ∷ ss) =
      let rest = live_candidates ss in
      if (strategy_allowed s.name regime.regime account.phase).0
      then s.propose market account regime ++ rest
      else rest

  -- the second loop
  unfoldable pub shadow_candidates : List (Strategy W) → List (SignalCandidate W)
  shadow_candidates [] = []
  shadow_candidates (s ∷ ss) =
      shadow_only_of (s.propose market account regime) ++ shadow_candidates ss

module _ {W : Type 0} ⦃f : Float W⦄ (hash_payload : HashPayload W) (now : ℕ)
    (ids : String → Ids) where
  unfoldable pub live_strategies : List (Strategy W)
  live_strategies =
      record {
        name = "breakout";
        propose = λ market account regime.
            propose_breakout hash_payload market account regime (ids "breakout");
      }
      ∷ record {
        name = "micro_grid";
        propose = λ market account regime.
            propose_micro_grid hash_payload market account regime (ids "micro_grid");
      }
      ∷ []

  unfoldable pub shadow_strategies : Bool → List (Strategy W)
  shadow_strategies false = []
  shadow_strategies true =
      record {
        name = "carry_shadow";
        propose = λ market account regime.
            propose_carry_shadow hash_payload market account regime (ids "carry_shadow");
      }
      ∷ record {
        name = "statarb_shadow";
        propose = λ market account regime.
            propose_statarb_shadow hash_payload now market account regime (ids "statarb_shadow");
      }
      ∷ []

  unfoldable pub propose :
      Bool
      → MarketSnapshot W
      → AccountSnapshot W
      → RegimeDecision W Reason
      → List (SignalCandidate W)
  propose include_shadow market account regime =
      live_candidates market account regime live_strategies
      ++ shadow_candidates market account regime (shadow_strategies include_shadow)
