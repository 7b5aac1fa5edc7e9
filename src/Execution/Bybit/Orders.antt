-- ===== src/Execution/Bybit/Orders.antt =====
-- The calls of app/execution/bybit_adapter.py that a trade needs: orders, the account and the
-- instruments.
pub mod Laws
use Prim.Native.String.{◌++◌}
use one_year_billion.Common.{
  ℕ, zero, suc, Bool, true, false, ◌&&◌, ◌||◌, not, Option, none, some, List, [], ◌∷◌,
  ◌++◌ as append, String, ◌≟◌, ltb, size, take, upper, ends_with, any, Dict, Result, Guard, ◌⇒◌,
  raise_first, if◌then◌else◌,
}
use one_year_billion.Common.Float.{Float}
use one_year_billion.Common.Int.{ℤ, pos}
use one_year_billion.Common.Json.{Json, Items, Fields, is_text, truthy_json, get_json, get_or}
use one_year_billion.Execution.Payload.{Field}
use one_year_billion.Execution.Bybit.Error.{Failure}
use one_year_billion.Execution.Bybit.Values.{attr_get, or_else, or_empty, type_of}
use one_year_billion.Execution.Bybit.Answers.{is_unhashable}
use one_year_billion.Execution.Bybit.Client.{Outside, public_get, private_get, private_post}
use one_year_billion.Execution.Bybit.Session.{
  BybitConfig, Session, Action, ◌>>=◌, ◌>>◌, return, raise, from_result,
}

-- `value in {...}` for texts
abbrev pub among : List String → Json → Bool
among texts v = any (λ t. is_text t v) texts

abbrev pub value_error : String → Failure
value_error message = Failure.other "ValueError" message

abbrev pub unhashable : Json → Failure
unhashable v = Failure.other "TypeError" ("unhashable type: '" ++ type_of v ++ "'")

-- `str` of a value and `hash_payload` and compact `json.dumps` of a payload
module _ (str_of : Json → String) (hash_payload : Fields → String) (dumps : Fields → String) where
  -- the refusals of `place_order`, in their order
  unfoldable pub order_guards : Fields → List (Guard Failure)
  unfolding get_or truthy_json upper ends_with size
  order_guards payload =
      let symbol = upper (str_of (or_else (get_json "symbol" payload) (Json.str ""))) in
      let order_type = get_json "orderType" payload in
      let side = get_json "side" payload in
      let link_id = get_json "orderLinkId" payload in
      not (is_text "linear" (get_json "category" payload)) ⇒ value_error "category_must_be_linear"
      ∷ (symbol ≟ "" || not (ends_with symbol "USDT"))
        ⇒ value_error "symbol_must_be_linear_usdt_contract"
      ∷ is_unhashable order_type ⇒ unhashable order_type
      ∷ not (among ("Limit" ∷ "Market" ∷ []) order_type) ⇒ value_error "order_type_not_allowed"
      ∷ is_unhashable side ⇒ unhashable side
      ∷ not (among ("Buy" ∷ "Sell" ∷ []) side) ⇒ value_error "side_not_allowed"
      ∷ (not (truthy_json link_id) || ltb 36 (size (str_of link_id)))
        ⇒ value_error "invalid_orderLinkId"
      ∷ not (truthy_json (get_json "qty" payload)) ⇒ value_error "qty_required"
      ∷ []

  -- the answer in the place of the exchange's
  unfoldable pub paper_ack : Fields → Fields
  unfolding take get_or
  paper_ack payload = Fields.field "retCode" (Json.int (pos 0)) (
      Fields.field "mode" (Json.str "paper_ack") (
        Fields.field "result"
          (Json.object (
            Fields.field "orderId" (Json.str ("paper-" ++ take 16 (hash_payload payload)))
              (Fields.field "orderLinkId" (get_json "orderLinkId" payload) Fields.no_fields)))
          Fields.no_fields))

  module _ {W : Type 0} ⦃f : Float W⦄ (outside : Outside W) (cfg : BybitConfig) where
    unfoldable pub place_order : Fields → Action W Fields
    unfolding order_guards paper_ack private_post
    place_order payload = do
      from_result (raise_first (order_guards payload))
      if not (cfg.trading_enabled && cfg.live_confirm)
          then return (paper_ack payload)
          else private_post outside cfg "/v5/order/create" (dumps payload)

    -- `cancel_all_entries`
    unfoldable pub cancel_all_entries : String → Action W Fields
    unfolding private_post upper
    cancel_all_entries symbol = private_post outside cfg "/v5/order/cancel-all" (
        dumps (
          Fields.field "category" (Json.str "linear") (
            Fields.field "symbol" (Json.str (upper symbol))
              (Fields.field "settleCoin" (Json.str "USDT") Fields.no_fields))))

    unfoldable pub exit_payload : String → String → String → String → Fields
    unfolding upper
    exit_payload symbol side qty order_link_id = Fields.field "category" (Json.str "linear") (
        Fields.field "symbol" (Json.str (upper symbol)) (
          Fields.field "side" (Json.str side) (
            Fields.field "orderType" (Json.str "Market") (
              Fields.field "qty" (Json.str qty) (
                Fields.field "reduceOnly" (Json.bool true) (
                  Fields.field "closeOnTrigger" (Json.bool true)
                    (Fields.field "orderLinkId" (Json.str order_link_id) Fields.no_fields)))))))

    unfoldable pub reduce_only_market_exit : String → String → String → String → Action W Fields
    unfolding place_order exit_payload
    reduce_only_market_exit symbol side qty order_link_id =
        place_order (exit_payload symbol side qty order_link_id)

module _ {W : Type 0} ⦃f : Float W⦄ (outside : Outside W) (cfg : BybitConfig) where
  unfoldable pub get_server_time : Action W Fields
  unfolding public_get
  get_server_time = public_get outside cfg "/v5/market/time" []

  -- the loop of `runtime_instruments_info`: an instrument of another category is refused
  unfoldable pub all_linear : Items → Result Failure (Unit {0})
  unfolding attr_get truthy_json
  all_linear Items.end = Result.ok tt
  all_linear (Items.item v items) =
      let rest = all_linear items in
      elim (attr_get "category" Json.null v) [
        | Result.raised e ↦ Result.raised e
        | Result.ok category ↦
            if truthy_json category && not (is_text "linear" category)
            then Result.raised
                (Failure.other "RuntimeError" "runtime_instrument_category_not_linear")
            else rest
      ]

  -- the loop over a value that may be no list
  unfoldable pub each_linear : Json → Result Failure (Unit {0})
  unfolding all_linear
  each_linear (Json.array items) = all_linear items
  each_linear (Json.object Fields.no_fields) = Result.ok tt
  each_linear (Json.object (Fields.field _ _ _)) =
      Result.raised (Failure.other "AttributeError" "'str' object has no attribute 'get'")
  each_linear (Json.str s) =
      if s ≟ ""
      then Result.ok tt
      else Result.raised (Failure.other "AttributeError" "'str' object has no attribute 'get'")
  each_linear v =
      Result.raised (Failure.other "TypeError" ("'" ++ type_of v ++ "' object is not iterable"))

  unfoldable pub runtime_instruments_info : String → Action W Fields
  unfolding public_get each_linear attr_get get_or upper
  runtime_instruments_info symbol = do
    info ←
        public_get outside cfg "/v5/market/instruments-info"
          (("category", Json.str "linear") ∷ ("symbol", Json.str (upper symbol)) ∷ [])
    instruments ← from_result (
        attr_get "list" (Json.array Items.end)
          (get_or "result" (Json.object Fields.no_fields) info))
    from_result (each_linear instruments)
    return info

  abbrev pub cursor_param : Json → Dict Json
  cursor_param cursor = if truthy_json cursor then ("cursor", cursor) ∷ [] else []

  unfoldable pub fetch_linear_instruments_page : Json → ℕ → Action W Fields
  unfolding public_get truthy_json
  fetch_linear_instruments_page cursor limit =
      public_get outside cfg "/v5/market/instruments-info"
        (("category", Json.str "linear") ∷ ("limit", Json.int (pos limit)) ∷ cursor_param cursor)

  -- the keys of an object, and the characters of a text, over which Python iterates
  unfoldable pub keys_of : Fields → Items
  keys_of Fields.no_fields = Items.end
  keys_of (Fields.field k v fs) = Items.item (Json.str k) (keys_of fs)

  unfoldable pub characters_of : String → Items
  unfolding take
  characters_of String.[] = Items.end
  characters_of (String.◌∷◌ c s) = Items.item (Json.str (take 1 (String.◌∷◌ c s))) (characters_of s)

  -- `value or []`, iterated over
  unfoldable pub items_in : Json → Result Failure Items
  unfolding keys_of characters_of truthy_json
  items_in (Json.array items) = Result.ok items
  items_in (Json.object fs) = Result.ok (keys_of fs)
  items_in (Json.str s) = Result.ok (characters_of s)
  items_in v =
      if truthy_json v
      then Result.raised
          (Failure.other "TypeError" ("'" ++ type_of v ++ "' object is not iterable"))
      else Result.ok Items.end

  unfoldable pub append_items : Items → Items → Items
  append_items Items.end ys = ys
  append_items (Items.item x xs) ys = Items.item x (append_items xs ys)

  -- the loop of `fetch_all_linear_instruments`, with the pages that are left
  unfoldable pub fetch_pages : ℕ → Json → Items → Action W Items
  unfolding fetch_linear_instruments_page attr_get append_items get_or
  fetch_pages zero cursor instruments = return instruments
  fetch_pages (suc pages) cursor instruments = do
    page ← fetch_linear_instruments_page cursor 500
    listed ← from_result (attr_get "list" Json.null (or_empty (get_json "result" page)))
    more ← from_result (items_in listed)
    next ← from_result (attr_get "nextPageCursor" Json.null (or_empty (get_json "result" page)))
    let found = append_items instruments more
    if not (truthy_json next) then return found else fetch_pages pages next found

  unfoldable pub fetch_all_linear_instruments : ℕ → Action W Items
  unfolding fetch_pages
  fetch_all_linear_instruments max_pages = fetch_pages max_pages Json.null Items.end

  abbrev pub linear_params : String → Dict Json
  linear_params symbol = ("category", Json.str "linear") ∷ ("symbol", Json.str (upper symbol)) ∷ []

  unfoldable pub get_orderbook : String → ℕ → Action W Fields
  unfolding public_get
  get_orderbook symbol limit =
      public_get outside cfg "/v5/market/orderbook"
        (append (linear_params symbol) (("limit", Json.int (pos limit)) ∷ []))

  unfoldable pub get_funding_history : String → ℕ → Action W Fields
  unfolding public_get
  get_funding_history symbol limit =
      public_get outside cfg "/v5/market/funding/history"
        (append (linear_params symbol) (("limit", Json.int (pos limit)) ∷ []))

  unfoldable pub get_open_interest : String → String → ℕ → Action W Fields
  unfolding public_get
  get_open_interest symbol interval_time limit = public_get outside cfg "/v5/market/open-interest" (
      append (linear_params symbol)
        (("intervalTime", Json.str interval_time) ∷ ("limit", Json.int (pos limit)) ∷ []))

  unfoldable pub get_wallet_balance : String → Action W Fields
  unfolding private_get
  get_wallet_balance account_type =
      private_get outside cfg "/v5/account/wallet-balance"
        (("accountType", Json.str account_type) ∷ ("coin", Json.str "USDT") ∷ [])

  unfoldable pub get_positions : String → Action W Fields
  unfolding private_get
  get_positions settle_coin =
      private_get outside cfg "/v5/position/list"
        (("category", Json.str "linear") ∷ ("settleCoin", Json.str settle_coin) ∷ [])

  unfoldable pub get_api_key_info : Action W Fields
  unfolding private_get
  get_api_key_info = private_get outside cfg "/v5/user/query-api" []
