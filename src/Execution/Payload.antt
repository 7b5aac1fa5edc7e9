-- ===== src/Execution/Payload.antt =====
-- `bybit_payload` of app/execution/order_router.py: the order as the exchange is asked for it.
use one_year_billion.Common.{Bool, true, Option, none, some, [], ◌∷◌, String, Dict, if◌then◌else◌}
use one_year_billion.Common.Float.{Float, nonzero}
use one_year_billion.Domain.{OrderIntent, OrderType, is_buy}

pub data Field : Type 0 where
  text : String → Field
  flag : Bool → Field

-- `{k: v for k, v in payload.items() if v is not None}`
unfoldable pub drop_none : Dict (Option Field) → Dict Field
drop_none [] = []
drop_none ((k, none) ∷ d) = drop_none d
drop_none ((k, some v) ∷ d) = (k, v) ∷ drop_none d

-- `'Limit' if intent.order_type in {'Limit', 'PostOnly'} else 'Market'`
abbrev pub order_type_field : OrderType → String
order_type_field OrderType.limit = "Limit"
order_type_field OrderType.market = "Market"
order_type_field OrderType.post_only = "Limit"

abbrev pub time_in_force_field : OrderType → String
time_in_force_field OrderType.post_only = "PostOnly"
time_in_force_field _ = "GTC"

abbrev pub close_on_trigger : Bool → OrderType → Option Field
close_on_trigger true OrderType.market = some (Field.flag true)
close_on_trigger _ _ = none

module _ {W : Type 0} ⦃f : Float W⦄ where
  -- `str(intent.price) if intent.price else None`
  abbrev pub price_field : Option W → Option Field
  price_field none = none
  price_field (some x) = if nonzero x then some (Field.text (f.to_text x)) else none

  unfoldable pub bybit_payload : OrderIntent W → Dict Field
  bybit_payload intent = drop_none (
      ("category", some (Field.text "linear"))
      ∷ ("symbol", some (Field.text intent.symbol))
      ∷ ("side", some (Field.text (if is_buy intent.side then "Buy" else "Sell")))
      ∷ ("orderType", some (Field.text (order_type_field intent.order_type)))
      ∷ ("qty", some (Field.text (f.to_text intent.qty)))
      ∷ ("price", price_field intent.price)
      ∷ ("timeInForce", some (Field.text (time_in_force_field intent.order_type)))
      ∷ ("reduceOnly", some (Field.flag intent.reduce_only))
      ∷ ("closeOnTrigger", close_on_trigger intent.reduce_only intent.order_type)
      ∷ ("orderLinkId", some (Field.text intent.client_order_id))
      ∷ [])
