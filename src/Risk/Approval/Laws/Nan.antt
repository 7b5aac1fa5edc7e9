-- ===== src/Risk/Approval/Laws/Nan.antt =====
-- Account amounts that are NaN: `approve_signal` does not test them, and a comparison with NaN fails.
use mathlib.Core.Path.{subst}
use one_year_billion.Common.{
  ◌≡◌, sym, false, fails_at, Result, arith, Bool-cases, >>=-eq-ok, ok_injective, inl, inr,
}
use one_year_billion.Common.Float.{
  Float, IsIeee, IsNumber, ◌<?◌, ◌<=?◌, ◌⊕◌, ◌⊖◌, ◌⊗◌, nought, py_max,
}
use one_year_billion.Domain.{
  SignalCandidate, AccountSnapshot, MarketSnapshot, InstrumentSpec, SizingResult,
}
use one_year_billion.Risk.Cost.{CostModel, round_trip_cost_bps}
use one_year_billion.Risk.Sizing.{divide, floor_to_step, liquidation_distance, size_position}
use one_year_billion.Risk.Approval.Config.{RiskConfig}
use one_year_billion.Risk.Approval.Checks.{
  size_checks, loss_checks, daily_remaining_risk, weekly_remaining_risk,
}

module _ {W : Type 0} ⦃f : Float W⦄ (laws : IsIeee W) where
  not-le_nan : (x y : W) → ¬ IsNumber x → (x <=? y) ≡ false
  not-le_nan x y n = elim (Bool-cases (x <=? y)) [
    | inl h ↦ absurd (n (laws.le-IsNumber x y h).0)
    | inr h ↦ h
  ]

  not-lt_nan : (x y : W) → ¬ IsNumber x → (x <? y) ≡ false
  not-lt_nan x y n = elim (Bool-cases (x <? y)) [
    | inl h ↦ absurd (n (laws.lt-IsNumber x y h).0)
    | inr h ↦ h
  ]

  not-gt_nan : (x y : W) → ¬ IsNumber x → (y <? x) ≡ false
  not-gt_nan x y n = elim (Bool-cases (y <? x)) [
    | inl h ↦ absurd (n (laws.lt-IsNumber y x h).1)
    | inr h ↦ h
  ]

  -- If the realized losses of the day and of the week are NaN, none of the four checks of the daily
  -- and weekly loss limits fails, whatever the size of the trade.
  pub nan_losses_pass :
      (account : AccountSnapshot W) (specs : InstrumentSpec W) (cfg : RiskConfig W)
      (sizing : SizingResult W)
      → ¬ IsNumber account.realized_negative_today_usdt
      → ¬ IsNumber account.realized_negative_week_usdt
      → (fails_at 0 (loss_checks account cfg) ≡ false)
        × (fails_at 1 (loss_checks account cfg) ≡ false)
        × (fails_at 2 (size_checks account specs cfg sizing) ≡ false)
        × (fails_at 3 (size_checks account specs cfg sizing) ≡ false)
  unfolding loss_checks size_checks
  nan_losses_pass account specs cfg sizing today week =
      let day : ¬ IsNumber (daily_remaining_risk account cfg) =
        λ h. today (laws.sub-IsNumber _ _ h).1 in
      let seven : ¬ IsNumber (weekly_remaining_risk account cfg) =
        λ h. week (laws.sub-IsNumber _ _ h).1 in
      (not-le_nan _ _ day, not-le_nan _ _ seven, not-lt_nan _ _ day, not-lt_nan _ _ seven)

  quot_nan : (x y z : W) → ¬ IsNumber x → divide x y ≡ Result.ok z → ¬ IsNumber z
  unfolding divide
  quot_nan x y z n h k =
      let same : f.quot x y ≡ z = ground arith in
      n (laws.quot-IsNumber x y (subst IsNumber (sym same) k)).0

  far_from_liquidation :
      (x r : W) → ¬ IsNumber x → liquidation_distance x ≡ Result.ok r → r ≡ f.lit 10 1
  unfolding liquidation_distance
  far_from_liquidation x r n h = ground (arith, not-gt_nan x nought n)

  -- the leverage and the distance to liquidation of a sized position
  record IsLevered (account : AccountSnapshot W) (s : SizingResult W) : Type 0 where
    used :
        divide
          (account.portfolio_abs_notional_usdt ⊕ s.notional)
          (py_max account.equity_usdt (f.lit 1 9))
        ≡ Result.ok s.effective_leverage
    room : liquidation_distance s.effective_leverage ≡ Result.ok s.liquidation_distance_pct

  size_position-IsLevered :
      (signal : SignalCandidate W) (account : AccountSnapshot W) (market : MarketSnapshot W)
      (specs : InstrumentSpec W) (risk_pct leverage : W) (costs : CostModel W) (distance : W)
      {s : SizingResult W}
      → size_position signal account market specs risk_pct leverage costs distance ≡ Result.ok s
      → IsLevered account s
  unfolding size_position
  size_position-IsLevered signal account market specs risk_pct leverage costs distance h =
      let tiny = λ (x : W). py_max x (f.lit 1 9) in
      let (qty_raw, _, h1) = >>=-eq-ok (divide (account.equity_usdt ⊗ risk_pct) distance) _ h in
      let (qty, _, h2) = >>=-eq-ok (floor_to_step qty_raw specs.qty_step) _ h1 in
      let notional = qty ⊗ signal.entry_price in
      let (rate, _, h3) =
        >>=-eq-ok
          (divide (round_trip_cost_bps costs market.spread_bps false market.funding_bps nought)
            (f.lit 10000 0))
          _ h2 in
      let (used, u, h4) =
        >>=-eq-ok
          (divide (account.portfolio_abs_notional_usdt ⊕ notional) (tiny account.equity_usdt)) _
          h3 in
      let (margin, _, h5) = >>=-eq-ok (divide notional (tiny leverage)) _ h4 in
      let (reserve, _, h6) =
        >>=-eq-ok
          (divide (account.available_balance_usdt ⊖ notional ⊗ rate ⊖ margin)
            (tiny account.equity_usdt))
          _ h5 in
      let (pct, _, h7) = >>=-eq-ok (divide distance signal.entry_price) _ h6 in
      let (room, r, h8) = >>=-eq-ok (liquidation_distance used) _ h7 in
      subst (IsLevered account) (ok_injective h8) (record { used = u; room = r })

  -- If the portfolio's notional is NaN, no position that is sized exceeds the leverage of the policy or
  -- of the specification, and its distance to liquidation reads as 1.0.
  pub nan_portfolio_passes :
      (signal : SignalCandidate W) (account : AccountSnapshot W) (market : MarketSnapshot W)
      (specs : InstrumentSpec W) (cfg : RiskConfig W) (costs : CostModel W) (distance : W)
      {s : SizingResult W}
      → ¬ IsNumber account.portfolio_abs_notional_usdt
      → size_position signal account market specs cfg.risk_pct_default cfg.max_effective_leverage
          costs distance
        ≡ Result.ok s
      → (fails_at 4 (size_checks account specs cfg s) ≡ false)
        × (fails_at 5 (size_checks account specs cfg s) ≡ false)
        × (s.liquidation_distance_pct ≡ f.lit 10 1)
  unfolding size_checks
  nan_portfolio_passes signal account market specs cfg costs distance {s} n h =
      let levered =
        size_position-IsLevered signal account market specs cfg.risk_pct_default
          cfg.max_effective_leverage costs distance h in
      let nan : ¬ IsNumber s.effective_leverage =
        quot_nan _ _ _ (λ k. n (laws.add-IsNumber _ _ k).0) levered.used in
      (
        not-gt_nan _ _ nan,
        not-gt_nan _ _ nan,
        far_from_liquidation s.effective_leverage s.liquidation_distance_pct nan levered.room,
      )
