-- ===== src/Risk/Approval/Decide.antt =====
-- `approve_signal` of app/risk_engine/approval.py. The clock and the new identifier are arguments; a
-- `datetime` counts microseconds.
use one_year_billion.Common.{
  ℕ, ◌+◌, ◌*◌, List, [], ◌∷◌, ◌++◌, String, is_empty, Guard, collect, Result, ◌>>=◌,
}
use one_year_billion.Common.Float.{Float, ◌⊕◌, ◌⊗◌, nought, py_max}
use one_year_billion.Domain.{
  SignalCandidate, AccountSnapshot, MarketSnapshot, InstrumentSpec, MlVerdict, SizingResult,
  RiskDecision, no_sizing,
}
use one_year_billion.Risk.Cost.{CostModel}
use one_year_billion.Risk.Sizing.{SizingError, divide, compute_sizing_after_rounding}
use one_year_billion.Risk.Approval.Config.{RiskConfig, Reason}
use one_year_billion.Risk.Approval.Checks.{
  numeric_checks, runtime_checks, lineage_checks, stop_checks, policy_checks, loss_checks,
  ml_checks, size_checks, portfolio_checks, reserve_checks, daily_remaining_risk,
  weekly_remaining_risk,
}

abbrev pub Decision : Type 0 → Type 0
Decision W = RiskDecision W Reason

module _ {W : Type 0} ⦃f : Float W⦄ where
  -- the `except` branch
  abbrev pub sizing_or_none : W → Result SizingError (SizingResult W) → SizingResult W
  sizing_or_none budget (Result.ok sizing) = sizing
  sizing_or_none budget (Result.raised e) = no_sizing (py_max budget nought)

  abbrev pub sizing_errors : Result SizingError (SizingResult W) → List Reason
  sizing_errors (Result.ok sizing) = []
  sizing_errors (Result.raised e) = Reason.sizing_failed e ∷ []

  module _ (now : ℕ) (signal : SignalCandidate W) (ml : MlVerdict W) (account : AccountSnapshot W)
      (market : MarketSnapshot W) (specs : InstrumentSpec W) (cfg : RiskConfig W)
      (costs : CostModel W) where
    unfoldable pub checks_before_sizing : List (Guard Reason)
    checks_before_sizing =
        numeric_checks signal cfg costs
        ++ (runtime_checks now signal account market specs
            ++ (lineage_checks signal
                ++ (stop_checks signal
                    ++ (policy_checks signal account market cfg
                        ++ (loss_checks account cfg ++ ml_checks ml)))))

    unfoldable pub attempted_sizing : Result SizingError (SizingResult W)
    attempted_sizing =
        compute_sizing_after_rounding signal account market specs cfg.risk_pct_default
          cfg.max_effective_leverage costs

    unfoldable pub sizing_of_signal : SizingResult W
    unfolding attempted_sizing
    sizing_of_signal = sizing_or_none (account.equity_usdt ⊗ cfg.risk_pct_default) attempted_sizing

    unfoldable pub portfolio_abs_after : W
    unfolding sizing_of_signal
    portfolio_abs_after = account.portfolio_abs_notional_usdt ⊕ sizing_of_signal.notional

    unfoldable pub checks_after_sizing : W → List (Guard Reason)
    checks_after_sizing portfolio_leverage =
        size_checks account specs cfg sizing_of_signal
        ++ (portfolio_checks cfg portfolio_abs_after portfolio_leverage
            ++ reserve_checks account cfg sizing_of_signal)

    unfoldable pub reasons_of : W → List Reason
    unfolding checks_before_sizing checks_after_sizing attempted_sizing
    reasons_of portfolio_leverage =
        collect checks_before_sizing
        ++ (sizing_errors attempted_sizing ++ collect (checks_after_sizing portfolio_leverage))

    unfoldable pub decision : String → List Reason → Decision W
    decision risk_decision_id reasons = record {
      risk_decision_id = risk_decision_id;
      signal_id = signal.signal_id;
      approved = is_empty reasons;
      reasons = reasons;
      sizing = sizing_of_signal;
      limits_snapshot = record {
        risk_pct_default = cfg.risk_pct_default;
        max_effective_leverage = cfg.max_effective_leverage;
        reserve_cash_pct = cfg.reserve_cash_pct;
        max_daily_loss_pct = cfg.max_daily_loss_pct;
        max_weekly_loss_pct = cfg.max_weekly_loss_pct;
        daily_remaining_risk = daily_remaining_risk account cfg;
        weekly_remaining_risk = weekly_remaining_risk account cfg;
        max_portfolio_abs_notional_usdt = cfg.max_portfolio_abs_notional_usdt;
        max_beta_adjusted_exposure_usdt = cfg.max_beta_adjusted_exposure_usdt;
        min_liq_distance_pct = cfg.min_liq_distance_pct;
        min_net_edge_bps = cfg.min_net_edge_bps;
      };
      account_snapshot = account;
      specs_version = specs.specs_version;
      feature_hash = signal.feature_hash;
      config_hash = cfg.config_hash;
      trace_id = signal.trace_id;
      created_at = now;
      expires_at = now + cfg.approval_ttl_seconds * 1000000;
    }

    -- The division is the only step outside the `try` that could raise.
    unfoldable pub approve_signal : String → Result SizingError (Decision W)
    unfolding reasons_of decision
    approve_signal risk_decision_id = do
      portfolio_leverage ← divide portfolio_abs_after (py_max account.equity_usdt (f.lit 1 9))
      Result.ok (decision risk_decision_id (reasons_of portfolio_leverage))
