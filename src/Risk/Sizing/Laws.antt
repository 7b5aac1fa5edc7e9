-- ===== src/Risk/Sizing/Laws.antt =====
-- Where the sizing can raise.
use mathlib.Core.Path.{subst}
use one_year_billion.Common.{
  ◌≢◌, ◌≡◌, sym, inl, inr, false, ◌||◌, Result, ◌>>=◌, arith, Bool-cases, or-false,
}
use one_year_billion.Common.Float.{
  Float, IsIeee, ◌<?◌, ◌<=?◌, ◌==?◌, ◌⊖◌, nought, py_max, pos-ne-nought, py_max-ne-nought,
}
use one_year_billion.Domain.{SignalCandidate, AccountSnapshot, MarketSnapshot, InstrumentSpec}
use one_year_billion.Risk.Cost.{CostModel}
use one_year_billion.Risk.Sizing.{
  SizingError, stop_or_zero, divide, floor_to_step, liquidation_distance, size_position,
  compute_sizing_after_rounding,
}

-- The errors that come from rounding to the exchange's step.
abbrev pub IsRoundingError : SizingError → Type 0
IsRoundingError SizingError.step_must_be_positive = Unit
IsRoundingError SizingError.decimal_error = Unit
IsRoundingError SizingError.zero_division = ⊥

-- A call that returns, or raises such an error.
abbrev RaisesOnlyRounding : {A : Type 0} → Result SizingError A → Type 0
RaisesOnlyRounding (Result.ok a) = Unit
RaisesOnlyRounding (Result.raised e) = IsRoundingError e

bind_rounding :
    {A B : Type 0} (m : Result SizingError A) (k : A → Result SizingError B)
    → RaisesOnlyRounding m
    → ((a : A) → RaisesOnlyRounding (k a))
    → RaisesOnlyRounding (m >>= k)
bind_rounding (Result.ok a) k h g = g a
bind_rounding (Result.raised e) k h g = h

module _ {W : Type 0} ⦃f : Float W⦄ (laws : IsIeee W) where
  divide_ok : (x y : W) → (y ==? nought) ≡ false → divide x y ≡ Result.ok (f.quot x y)
  unfolding divide
  divide_ok x y h = ground arith

  floor_rounding : (x s : W) → RaisesOnlyRounding (floor_to_step x s)
  unfolding floor_to_step
  floor_rounding x s = ground arith

  tiny-ne-nought : (x : W) → (py_max x (f.lit 1 9) ==? nought) ≡ false
  tiny-ne-nought x =
      py_max-ne-nought laws x (f.lit 1 9) (laws.lit_pos 1 9 (omega arith) (omega arith))

  divide_rounding : (x y : W) → (y ==? nought) ≡ false → RaisesOnlyRounding (divide x y)
  divide_rounding x y h = subst RaisesOnlyRounding (sym (divide_ok x y h)) tt

  liquidation_rounding : (x : W) → RaisesOnlyRounding (liquidation_distance x)
  unfolding liquidation_distance
  liquidation_rounding x = elim (Bool-cases (nought <? x)) [
    | inl p ↦ rw p (
        bind_rounding (divide (f.lit 1 0) (py_max x (f.lit 1 9))) _
          (divide_rounding _ _ (tiny-ne-nought x)) (λ r. tt))
    | inr p ↦ rw p tt
  ]

  -- A value that is not at most zero is no divisor of zero.
  ne-nought_of_not_le : (x : W) → (x <=? nought) ≡ false → (x ==? nought) ≡ false
  ne-nought_of_not_le x h = ground (arith, laws.le_of_eq x nought)

  size_position_rounding :
      (signal : SignalCandidate W) (account : AccountSnapshot W) (market : MarketSnapshot W)
      (specs : InstrumentSpec W) (risk_pct leverage : W) (costs : CostModel W) (distance : W)
      → (signal.entry_price <=? nought) ≡ false
      → (distance <=? nought) ≡ false
      → RaisesOnlyRounding
          (size_position signal account market specs risk_pct leverage costs distance)
  unfolding size_position
  size_position_rounding signal account market specs risk_pct leverage costs distance p q =
      let equity = tiny-ne-nought account.equity_usdt in
      bind_rounding _ _ (divide_rounding _ _ (ne-nought_of_not_le distance q)) λ qty_raw.
        bind_rounding _ _ (floor_rounding _ _) λ qty.
          bind_rounding _ _
            (divide_rounding _ _ (
              pos-ne-nought laws (f.lit 10000 0)
                (laws.lit_pos 10000 0 (omega arith) (omega arith))))
            λ rate. bind_rounding _ _ (divide_rounding _ _ equity) λ used.
              bind_rounding _ _ (divide_rounding _ _ (tiny-ne-nought leverage)) λ margin.
                bind_rounding _ _ (divide_rounding _ _ equity) λ reserve.
                  bind_rounding _ _ (divide_rounding _ _ (ne-nought_of_not_le signal.entry_price p))
                    λ pct. bind_rounding _ _ (liquidation_rounding used) λ room. tt

  sizing_rounding :
      (signal : SignalCandidate W) (account : AccountSnapshot W) (market : MarketSnapshot W)
      (specs : InstrumentSpec W) (risk_pct leverage : W) (costs : CostModel W)
      → RaisesOnlyRounding
          (compute_sizing_after_rounding signal account market specs risk_pct leverage costs)
  unfolding compute_sizing_after_rounding
  sizing_rounding signal account market specs risk_pct leverage costs =
      let distance = f.abs (signal.entry_price ⊖ stop_or_zero signal.stop_price) in
      elim (Bool-cases (signal.entry_price <=? nought || distance <=? nought)) [
        | inl e ↦ rw e tt
        | inr e ↦
            let (p, q) = or-false _ _ e in
            rw e (
              size_position_rounding signal account market specs risk_pct leverage costs distance p
                q)
      ]

  -- Sizing raises only where the quantity is rounded to the exchange's step: for a step that is not
  -- positive, or in `decimal`. No division in it is by zero, for any signal, account, market,
  -- specification and configuration, NaN and infinite values included.
  pub sizing_raises_only_in_rounding :
      (signal : SignalCandidate W) (account : AccountSnapshot W) (market : MarketSnapshot W)
      (specs : InstrumentSpec W) (risk_pct leverage : W) (costs : CostModel W) {e : SizingError}
      → compute_sizing_after_rounding signal account market specs risk_pct leverage costs
        ≡ Result.raised e
      → e ≢ SizingError.zero_division
  sizing_raises_only_in_rounding signal account market specs risk_pct leverage costs h e =
      subst IsRoundingError e (
        subst RaisesOnlyRounding h
          (sizing_rounding signal account market specs risk_pct leverage costs))
