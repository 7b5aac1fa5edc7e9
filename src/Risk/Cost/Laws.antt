-- ===== src/Risk/Cost/Laws.antt =====
-- Costs are never negative, and a net edge is always a number.
use one_year_billion.Common.{◌≡◌, Bool, true, false, if◌then◌else◌, arith}
use one_year_billion.Common.Float.{
  Float, IsIeee, IsNumber, ◌⊗◌, ◌<=?◌, nought, nought-IsNumber, le_of_lt,
}
use one_year_billion.Risk.Cost.{CostModel, round_trip_cost_bps, expected_net_edge_bps}

module _ {W : Type 0} ⦃f : Float W⦄ where
  -- `not any(not _is_nonnegative_number(x) ...)` over the fields
  pub record IsSound (c : CostModel W) : Type 0 where
    pub maker : (f.is_finite c.maker_fee_bps ≡ true) × ((nought <=? c.maker_fee_bps) ≡ true)
    pub taker : (f.is_finite c.taker_fee_bps ≡ true) × ((nought <=? c.taker_fee_bps) ≡ true)
    pub slippage : (nought <=? c.slippage_buffer_bps) ≡ true
    pub funding : (nought <=? c.funding_buffer_bps) ≡ true
    pub safety : (nought <=? c.safety_buffer_bps) ≡ true

module _ {W : Type 0} ⦃f : Float W⦄ (laws : IsIeee W) where
  twice_nonneg :
      (x : W) → f.is_finite x ≡ true → (nought <=? x) ≡ true → (nought <=? f.lit 2 0 ⊗ x) ≡ true
  twice_nonneg x p h =
      laws.mul_nonneg (f.lit 2 0) x (laws.lit_finite 2 0 (omega arith) (omega arith)) p
        (le_of_lt laws nought (f.lit 2 0) (laws.lit_pos 2 0 (omega arith) (omega arith))) h

  fee_nonneg :
      (c : CostModel W) (taker : Bool)
      → IsSound c
      → (nought <=? f.lit 2 0 ⊗ (if taker then c.taker_fee_bps else c.maker_fee_bps)) ≡ true
  fee_nonneg c true s = twice_nonneg c.taker_fee_bps s.taker.0 s.taker.1
  fee_nonneg c false s = twice_nonneg c.maker_fee_bps s.maker.0 s.maker.1

  -- A round trip with sound costs, a spread that is not negative, a numeric funding rate and no cost
  -- for a hedge costs at least nothing, and is a number although sums may overflow.
  pub round_trip_cost_nonneg :
      (c : CostModel W) (spread funding : W) (taker : Bool)
      → IsSound c
      → (nought <=? spread) ≡ true
      → IsNumber funding
      → (nought <=? round_trip_cost_bps c spread taker funding nought) ≡ true
  unfolding round_trip_cost_bps
  round_trip_cost_nonneg c spread funding taker s p n =
      let nought_nonneg = laws.le_of_eq nought nought (nought-IsNumber laws) in
      let fee : (nought <=? f.lit 2 0 ⊗ (if taker then c.taker_fee_bps else c.maker_fee_bps))
          ≡ true =
        fee_nonneg c taker s in
      laws.add_nonneg _ _
        (laws.add_nonneg _ _
          (laws.add_nonneg _ _
            (laws.add_nonneg _ _ (laws.add_nonneg _ _ (laws.add_nonneg _ _ fee p) s.slippage)
              (laws.abs_nonneg funding n))
            s.funding)
          nought_nonneg)
        s.safety

  -- The net edge of a trade with finite gross edge is then a number, whatever the sums overflow to.
  pub expected_net_edge-IsNumber :
      (c : CostModel W) (gross spread funding : W) (taker : Bool)
      → IsSound c
      → f.is_finite gross ≡ true
      → (nought <=? spread) ≡ true
      → IsNumber funding
      → IsNumber (expected_net_edge_bps c gross spread taker funding nought)
  unfolding expected_net_edge_bps
  expected_net_edge-IsNumber c gross spread funding taker s g p n =
      laws.sub_finite gross _ g
        (laws.le-IsNumber nought _ (round_trip_cost_nonneg c spread funding taker s p n)).1
