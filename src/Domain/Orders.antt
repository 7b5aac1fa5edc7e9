-- ===== src/Domain/Orders.antt =====
-- `OrderIntent` and `PositionState` of app/schemas/domain.py.
use one_year_billion.Common.{Bool, Option, String}
use one_year_billion.Domain.Enums.{Side, OrderState, OrderType}

pub record OrderIntent (W : Type 0) : Type 0 where
  pub order_id : String
  pub signal_id : String
  pub risk_decision_id : String
  pub client_order_id : String
  pub symbol : String
  pub side : Side
  pub order_type : OrderType
  pub qty : W
  pub price : Option W
  pub reduce_only : Bool
  pub state : OrderState
  pub idempotency_key : String
  pub trace_id : String

pub data PositionSide : Type 0 where
  long short flat : PositionSide

pub record PositionState (W : Type 0) : Type 0 where
  pub symbol : String
  pub side : PositionSide
  pub qty : W
  pub avg_price : Option W
  pub liq_price : Option W
  pub sl_price : Option W
  pub tp_price : Option W
  pub state : String
  pub protection_state : String
  pub reconciliation_status : String
  pub trace_id : String
