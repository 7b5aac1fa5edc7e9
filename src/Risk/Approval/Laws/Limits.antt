-- ===== src/Risk/Approval/Laws/Limits.antt =====
-- The limits that the size of an approved trade keeps.
use one_year_billion.Common.{
  ℕ, ◌≡◌, true, false, String, Pass, Pass-at, Result, or-false, not-false, and-true,
}
use one_year_billion.Common.Float.{
  Float, IsIeee, IsNumber, ◌<?◌, ◌<=?◌, ◌⊕◌, lt_of_not_le, le_of_not_lt,
}
use one_year_billion.Domain.{
  SignalCandidate, AccountSnapshot, MarketSnapshot, InstrumentSpec, MlVerdict, SizingResult,
}
use one_year_billion.Risk.Cost.{CostModel}
use one_year_billion.Risk.Approval.Config.{RiskConfig}
use one_year_billion.Risk.Approval.Checks.{
  numeric_checks, runtime_checks, size_checks, reserve_checks, daily_remaining_risk,
  weekly_remaining_risk, beta_cap, not_positive, not_nonnegative,
}
use one_year_billion.Risk.Approval.Decide.{Decision, approve_signal}
use one_year_billion.Risk.Approval.Laws.Parts.{approved-Passed}

module _ {W : Type 0} ⦃f : Float W⦄ where
  -- The amounts that `approve_signal` compares without a test for NaN are numbers.
  pub record IsMeasured (account : AccountSnapshot W) (cfg : RiskConfig W) (s : SizingResult W)
      : Type 0 where
    pub qty : IsNumber s.qty
    pub notional : IsNumber s.notional
    pub budget : IsNumber s.risk_budget
    pub loss : IsNumber s.max_loss_if_stop
    pub leverage : IsNumber s.effective_leverage
    pub reserve : IsNumber s.reserve_cash_after_pct
    pub edge : IsNumber s.expected_net_edge_bps
    pub daily : IsNumber (daily_remaining_risk account cfg)
    pub weekly : IsNumber (weekly_remaining_risk account cfg)
    pub beta : IsNumber (f.abs account.beta_adjusted_exposure_usdt ⊕ s.notional)
    pub cap : IsNumber (beta_cap account cfg)

  pub record WithinLimits (account : AccountSnapshot W) (specs : InstrumentSpec W)
      (cfg : RiskConfig W) (s : SizingResult W) : Type 0 where
    pub tradable_qty : (specs.min_qty <=? s.qty) ≡ true
    pub tradable_notional : (specs.min_notional <=? s.notional) ≡ true
    pub loss_in_budget : (s.max_loss_if_stop <=? s.risk_budget) ≡ true
    pub loss_in_day : (s.max_loss_if_stop <=? daily_remaining_risk account cfg) ≡ true
    pub loss_in_week : (s.max_loss_if_stop <=? weekly_remaining_risk account cfg) ≡ true
    pub leverage_in_policy : (s.effective_leverage <=? cfg.max_effective_leverage) ≡ true
    pub leverage_in_specs : (s.effective_leverage <=? specs.max_leverage) ≡ true
    pub beta_in_cap :
        (f.abs account.beta_adjusted_exposure_usdt ⊕ s.notional <=? beta_cap account cfg) ≡ true
    pub reserve_kept : (cfg.reserve_cash_pct <=? s.reserve_cash_after_pct) ≡ true
    pub edge_after_costs : (cfg.min_net_edge_bps <? s.expected_net_edge_bps) ≡ true

module _ {W : Type 0} ⦃f : Float W⦄ (laws : IsIeee W) where
  positive-IsNumber : (x : W) → not_positive x ≡ false → IsNumber x
  positive-IsNumber x h = laws.finite-IsNumber x (and-true _ _ (not-false _ h)).0

  nonnegative-IsNumber : (x : W) → not_nonnegative x ≡ false → IsNumber x
  nonnegative-IsNumber x h = laws.finite-IsNumber x (and-true _ _ (not-false _ h)).0

  -- the numbers of a configuration and a specification that were checked
  record AreChecked (specs : InstrumentSpec W) (cfg : RiskConfig W) : Type 0 where
    min_qty : IsNumber specs.min_qty
    min_notional : IsNumber specs.min_notional
    max_leverage : IsNumber specs.max_leverage
    max_effective_leverage : IsNumber cfg.max_effective_leverage
    reserve_cash_pct : IsNumber cfg.reserve_cash_pct
    min_net_edge_bps : IsNumber cfg.min_net_edge_bps

  checked_numbers :
      (now : ℕ) (signal : SignalCandidate W) (account : AccountSnapshot W)
      (market : MarketSnapshot W) (specs : InstrumentSpec W) (cfg : RiskConfig W)
      (costs : CostModel W)
      → Pass (numeric_checks signal cfg costs)
      → Pass (runtime_checks now signal account market specs)
      → AreChecked specs cfg
  unfolding numeric_checks runtime_checks
  checked_numbers now signal account market specs cfg costs n r =
      let (_, s1) = or-false _ _ (Pass-at 5 (runtime_checks now signal account market specs) r) in
      let (_, s2) = or-false _ _ s1 in
      let (qty, s3) = or-false _ _ s2 in
      let (notional, s4) = or-false _ _ s3 in
      let (leverage, _) = or-false _ _ s4 in
      let (c1, edge) = or-false _ _ (Pass-at 1 (numeric_checks signal cfg costs) n) in
      let (c2, _) = or-false _ _ c1 in
      let (c3, _) = or-false _ _ c2 in
      let (c4, _) = or-false _ _ c3 in
      let (c5, _) = or-false _ _ c4 in
      let (c6, _) = or-false _ _ c5 in
      let (c7, reserve) = or-false _ _ c6 in
      let (c8, max_leverage) = or-false _ _ c7 in
      record {
        min_qty = positive-IsNumber _ qty;
        min_notional = positive-IsNumber _ notional;
        max_leverage = positive-IsNumber _ leverage;
        max_effective_leverage = positive-IsNumber _ max_leverage;
        reserve_cash_pct = nonnegative-IsNumber _ reserve;
        min_net_edge_bps = nonnegative-IsNumber _ edge;
      }

  -- Where the amounts that it compares without a test are numbers, the size of an approved trade is at
  -- least the exchange's minimum; its loss at the stop stays within the risk budget and within what
  -- the day and the week have left; the leverage stays within the policy and the specification, the
  -- beta exposure within its cap; the cash reserve is kept; and the edge after costs exceeds the
  -- minimum.
  pub approved_limits :
      (now : ℕ) (signal : SignalCandidate W) (ml : MlVerdict W) (account : AccountSnapshot W)
      (market : MarketSnapshot W) (specs : InstrumentSpec W) (cfg : RiskConfig W)
      (costs : CostModel W) (id : String) {d : Decision W}
      → approve_signal now signal ml account market specs cfg costs id ≡ Result.ok d
      → d.approved ≡ true
      → IsMeasured account cfg d.sizing
      → WithinLimits account specs cfg d.sizing
  unfolding size_checks reserve_checks
  approved_limits now signal ml account market specs cfg costs id {d} h a m =
      let p = approved-Passed now signal ml account market specs cfg costs id h a in
      let k = checked_numbers now signal account market specs cfg costs p.numeric p.runtime in
      let sized = λ (n : ℕ). Pass-at n (size_checks account specs cfg d.sizing) p.size in
      let reserved = λ (n : ℕ). Pass-at n (reserve_checks account cfg d.sizing) p.reserve in
      let (qty, notional) = or-false _ _ (sized 0) in
      record {
        tradable_qty = le_of_not_lt laws _ _ k.min_qty m.qty qty;
        tradable_notional = le_of_not_lt laws _ _ k.min_notional m.notional notional;
        loss_in_budget = le_of_not_lt laws _ _ m.loss m.budget (sized 1);
        loss_in_day = le_of_not_lt laws _ _ m.loss m.daily (sized 2);
        loss_in_week = le_of_not_lt laws _ _ m.loss m.weekly (sized 3);
        leverage_in_policy = le_of_not_lt laws _ _ m.leverage k.max_effective_leverage (sized 4);
        leverage_in_specs = le_of_not_lt laws _ _ m.leverage k.max_leverage (sized 5);
        beta_in_cap = le_of_not_lt laws _ _ m.beta m.cap (reserved 0);
        reserve_kept = le_of_not_lt laws _ _ k.reserve_cash_pct m.reserve (reserved 1);
        edge_after_costs = lt_of_not_le laws _ _ k.min_net_edge_bps m.edge (reserved 3);
      }
