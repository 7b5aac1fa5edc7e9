-- ===== src/Risk/Cost.antt =====
-- app/risk_engine/cost_model.py
pub mod Laws
use one_year_billion.Common.{Bool, if◌then◌else◌}
use one_year_billion.Common.Float.{Float, ◌⊕◌, ◌⊖◌, ◌⊗◌, nought}

pub record CostModel (W : Type 0) : Type 0 where
  pub maker_fee_bps : W
  pub taker_fee_bps : W
  pub slippage_buffer_bps : W
  pub funding_buffer_bps : W
  pub safety_buffer_bps : W

module _ {W : Type 0} ⦃f : Float W⦄ where
  -- `CostModel()`
  unfoldable pub default_costs : CostModel W
  default_costs = record {
    maker_fee_bps = f.lit 20 1;
    taker_fee_bps = f.lit 55 1;
    slippage_buffer_bps = f.lit 20 1;
    funding_buffer_bps = f.lit 10 1;
    safety_buffer_bps = f.lit 20 1;
  }

  -- The arguments are the spread, whether the order takes liquidity, the funding and the cost of a
  -- hedge.
  unfoldable pub round_trip_cost_bps : CostModel W → W → Bool → W → W → W
  round_trip_cost_bps c spread_bps taker funding_bps hedge_cost_bps =
      let fee = if taker then c.taker_fee_bps else c.maker_fee_bps in
      f.lit 2 0 ⊗ fee
      ⊕ spread_bps
      ⊕ c.slippage_buffer_bps
      ⊕ f.abs funding_bps
      ⊕ c.funding_buffer_bps
      ⊕ hedge_cost_bps
      ⊕ c.safety_buffer_bps

  unfoldable pub expected_net_edge_bps : CostModel W → W → W → Bool → W → W → W
  unfolding round_trip_cost_bps
  expected_net_edge_bps c gross_edge_bps spread_bps taker funding_bps hedge_cost_bps =
      gross_edge_bps ⊖ round_trip_cost_bps c spread_bps taker funding_bps hedge_cost_bps
