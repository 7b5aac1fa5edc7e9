-- ===== src/Domain/Enums.antt =====
-- The `str` enumerations of app/schemas/domain.py.
use mathlib.Core.Bool.{Bool, true, false}

pub data Side : Type 0 where
  buy sell : Side

pub data Regime : Type 0 where
  de_risk no_trade news_risk liquidation high_vol trend_up trend_down range low_vol : Regime

pub data MlVerdictType : Type 0 where
  allow block unavailable : MlVerdictType

pub data EffectiveStatus : Type 0 where
  pending active blocked no_trade de_risk error_reconciliation_required closed rejected :
      EffectiveStatus

pub data OrderState : Type 0 where
  pending_signal risk_rejected approved order_submitted partially_filled filled protected_with_sltp
        reduce_only_exiting closed error_reconciliation_required blocked de_risk :
      OrderState

pub data OrderType : Type 0 where
  limit market post_only : OrderType

pub Side-discrete : Discrete Side
Side-discrete = hlevel

pub Regime-discrete : Discrete Regime
Regime-discrete = hlevel

pub OrderState-discrete : Discrete OrderState
OrderState-discrete = hlevel

abbrev pub is_buy : Side → Bool
is_buy Side.buy = true
is_buy Side.sell = false
