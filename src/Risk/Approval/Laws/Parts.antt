-- ===== src/Risk/Approval/Laws/Parts.antt =====
-- An approval, taken apart into the groups of checks that were passed.
use mathlib.Core.Path.{subst}
use one_year_billion.Common.{
  ℕ, ◌≡◌, refl, ap, ◌∙◌, true, String, is_empty, is_empty-append, Pass-append, collect, Pass,
  Pass-collect, Result, >>=-eq-ok,
}
use one_year_billion.Common.Float.{Float, py_max}
use one_year_billion.Domain.{
  SignalCandidate, AccountSnapshot, MarketSnapshot, InstrumentSpec, MlVerdict, SizingResult,
}
use one_year_billion.Risk.Cost.{CostModel}
use one_year_billion.Risk.Sizing.{SizingError, divide}
use one_year_billion.Risk.Approval.Config.{RiskConfig}
use one_year_billion.Risk.Approval.Checks.{
  numeric_checks, runtime_checks, lineage_checks, stop_checks, policy_checks, loss_checks,
  ml_checks, size_checks, portfolio_checks, reserve_checks,
}
use one_year_billion.Risk.Approval.Decide.{
  Decision, checks_before_sizing, attempted_sizing, sizing_of_signal, portfolio_abs_after,
  reasons_of, decision, approve_signal, sizing_errors, sizing_or_none,
}

module _ {W : Type 0} ⦃f : Float W⦄ where
  sized_of :
      (budget : W) (r : Result SizingError (SizingResult W))
      → is_empty (sizing_errors r) ≡ true
      → r ≡ Result.ok (sizing_or_none budget r)
  sized_of budget (Result.ok s) h = refl
  sized_of budget (Result.raised e) h = cc

module _ {W : Type 0} ⦃f : Float W⦄ (now : ℕ) (signal : SignalCandidate W) (ml : MlVerdict W)
    (account : AccountSnapshot W) (market : MarketSnapshot W) (specs : InstrumentSpec W)
    (cfg : RiskConfig W) (costs : CostModel W) where
  pub record Passed (d : Decision W) : Type 0 where
    pub leverage : W
    pub numeric : Pass (numeric_checks signal cfg costs)
    pub runtime : Pass (runtime_checks now signal account market specs)
    pub lineage : Pass (lineage_checks signal)
    pub stop : Pass (stop_checks signal)
    pub policy : Pass (policy_checks signal account market cfg)
    pub losses : Pass (loss_checks account cfg)
    pub verdict : Pass (ml_checks ml)
    pub sized : attempted_sizing now signal ml account market specs cfg costs ≡ Result.ok d.sizing
    pub size : Pass (size_checks account specs cfg d.sizing)
    pub portfolio : Pass (
        portfolio_checks cfg
          (portfolio_abs_after now signal ml account market specs cfg costs)
          leverage)
    pub reserve : Pass (reserve_checks account cfg d.sizing)

  reasons-Passed :
      (id : String) (leverage : W)
      → is_empty (reasons_of now signal ml account market specs cfg costs leverage) ≡ true
      → Passed (
          decision now signal ml account market specs cfg costs id
            (reasons_of now signal ml account market specs cfg costs leverage))
  unfolding decision reasons_of sizing_of_signal
  reasons-Passed id leverage h =
      let (none_before, others) =
        is_empty-append
          (collect (checks_before_sizing now signal ml account market specs cfg costs)) _ h in
      let (no_error, none_after) =
        is_empty-append
          (sizing_errors (attempted_sizing now signal ml account market specs cfg costs)) _
          others in
      let (numeric, p1) =
        Pass-append (numeric_checks signal cfg costs) _ (Pass-collect _ none_before) in
      let (runtime, p2) = Pass-append (runtime_checks now signal account market specs) _ p1 in
      let (lineage, p3) = Pass-append (lineage_checks signal) _ p2 in
      let (stop, p4) = Pass-append (stop_checks signal) _ p3 in
      let (policy, p5) = Pass-append (policy_checks signal account market cfg) _ p4 in
      let (losses, verdict) = Pass-append (loss_checks account cfg) _ p5 in
      let (size, p6) =
        Pass-append (size_checks account specs cfg _) _ (Pass-collect _ none_after) in
      let (portfolio, reserve) = Pass-append (portfolio_checks cfg _ leverage) _ p6 in
      record {
        leverage = leverage;
        numeric = numeric;
        runtime = runtime;
        lineage = lineage;
        stop = stop;
        policy = policy;
        losses = losses;
        verdict = verdict;
        sized = sized_of _ _ no_error;
        size = size;
        portfolio = portfolio;
        reserve = reserve;
      }

  pub approved-Passed :
      (id : String) {d : Decision W}
      → approve_signal now signal ml account market specs cfg costs id ≡ Result.ok d
      → d.approved ≡ true
      → Passed d
  unfolding approve_signal
  approved-Passed id {d} h a =
      let (leverage, q, e) =
        >>=-eq-ok
          (divide (portfolio_abs_after now signal ml account market specs cfg costs)
            (py_max account.equity_usdt (f.lit 1 9)))
          _ h in
      let same : decision now signal ml account market specs cfg costs id
            (reasons_of now signal ml account market specs cfg costs leverage)
          ≡ d =
        cc in
      subst Passed same (reasons-Passed id leverage (ap (λ (x : Decision W). x.approved) same ∙ a))
