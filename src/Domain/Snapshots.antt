-- ===== src/Domain/Snapshots.antt =====
-- `InstrumentSpec`, `MarketSnapshot` and `AccountSnapshot` of app/schemas/domain.py.
use one_year_billion.Common.{ℕ, Bool, Option, String, ltb}
use one_year_billion.Common.Float.{Float, ◌⊕◌}

pub record InstrumentSpec (W : Type 0) : Type 0 where
  pub symbol : String
  pub category : String
  pub status : String
  pub tick_size : W
  pub qty_step : W
  pub min_qty : W
  pub min_notional : W
  pub max_leverage : W
  pub specs_version : String
  pub fetched_at : ℕ
  pub expires_at : ℕ

pub record MarketSnapshot (W : Type 0) : Type 0 where
  pub symbol : String
  pub bid1 : W
  pub ask1 : W
  pub spread_bps : W
  pub depth_usdt : W
  pub funding_bps : W
  pub funding_fresh : Bool
  pub volatility_bps : W
  pub atr_pct : W
  pub volume_z : W
  pub oi_delta_pct : W
  pub btc_aligned : Bool
  pub structure_break : Bool
  pub donchian_break : Bool
  pub atr_expansion : Bool
  pub oi_sanity : Bool
  pub funding_sanity : Bool
  pub range_width_bps : Option W
  pub adx : Option W
  pub fetched_at : ℕ
  pub expires_at : ℕ

pub record AccountSnapshot (W : Type 0) : Type 0 where
  pub equity_usdt : W
  pub available_balance_usdt : W
  -- a phase below 0 is refused at start-up when live trading is asked for, and is read as phase 0
  -- by every other test of the program
  pub phase : ℕ
  pub account_mode : String
  pub position_mismatch : Bool
  pub daily_loss_hit : Bool
  pub weekly_loss_hit : Bool
  pub realized_negative_today_usdt : W
  pub realized_negative_week_usdt : W
  pub portfolio_abs_notional_usdt : W
  pub beta_adjusted_exposure_usdt : W
  pub fetched_at : ℕ
  pub expires_at : ℕ

-- the property `fresh` of the three snapshots, and of a model's metadata
abbrev pub fresh_at : ℕ → ℕ → Bool
fresh_at now expires_at = ltb now expires_at

module _ {W : Type 0} ⦃f : Float W⦄ where
  unfoldable pub mid : MarketSnapshot W → W
  mid m = f.quot (m.bid1 ⊕ m.ask1) (f.lit 2 0)
