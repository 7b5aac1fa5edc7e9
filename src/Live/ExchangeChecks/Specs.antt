-- ===== src/Live/ExchangeChecks/Specs.antt =====
-- The specifications of the traded instruments, as the exchange states them at the time of the
-- check. An attribute access or an index that Python refuses is an error.
use Prim.Native.String.{◌++◌}
use one_year_billion.Common.{
  Bool, false, ◌||◌, not, none, some, Option, List, [], ◌∷◌, ◌++◌ as append, String, is_empty, join,
  Result, ◌>>=◌, if◌then◌else◌,
}
use one_year_billion.Common.Float.{Float, ◌<?◌, nought}
use one_year_billion.Common.Json.{Json, Items, Fields, is_text, get_json, get_or, put_json}
use one_year_billion.Execution.Bybit.Error.{Failure, type_name}
use one_year_billion.Execution.Bybit.Values.{or_empty, attr_get, first_of}

-- what the loop over the universe keeps of an instrument
unfoldable pub add_found :
    String → Result Failure (Fields × List String) → Fields × List String → Fields × List String
unfolding put_json type_name
add_found symbol (Result.ok (extracted, more)) (specs, reasons) =
    (put_json symbol (Json.object extracted) specs, append reasons more)
add_found symbol (Result.raised e) (specs, reasons) =
    (specs, append reasons ((symbol ++ ":runtime_specs_check_failed:" ++ type_name e) ∷ []))

-- `float_of` is Python's `float` of a value, none where it raises TypeError or ValueError.
module _ {W : Type 0} ⦃f : Float W⦄ (float_of : Json → Option W) where
  -- `_positive_number`
  unfoldable pub positive_number : Json → Bool
  positive_number v = elim (float_of v) [ none ↦ false | some x ↦ nought <? x ]

  -- the names of `names` at which a dictionary has no positive number
  unfoldable pub missing_of : Fields → List String → List String
  unfolding positive_number get_or
  missing_of extracted [] = []
  missing_of extracted (name ∷ names) =
      let later = missing_of extracted names in
      if positive_number (get_json name extracted) then later else name ∷ later

  abbrev pub required_specs : List String
  required_specs = "tick_size" ∷ "qty_step" ∷ "min_qty" ∷ "min_notional" ∷ "max_leverage" ∷ []

  -- `_extract_runtime_specs`
  unfoldable pub extract_runtime_specs : Json → Result Failure (Fields × List String)
  unfolding attr_get missing_of
  extract_runtime_specs item = do
    lot ← attr_get "lotSizeFilter" Json.null item
    price ← attr_get "priceFilter" Json.null item
    leverage ← attr_get "leverageFilter" Json.null item
    symbol ← attr_get "symbol" Json.null item
    category ← attr_get "category" (Json.str "linear") item
    status ← attr_get "status" Json.null item
    tick_size ← attr_get "tickSize" Json.null (or_empty price)
    qty_step ← attr_get "qtyStep" Json.null (or_empty lot)
    min_qty ← attr_get "minOrderQty" Json.null (or_empty lot)
    min_notional ← attr_get "minNotionalValue" Json.null (or_empty lot)
    max_leverage ← attr_get "maxLeverage" Json.null (or_empty leverage)
    let extracted = Fields.field "symbol" symbol (
        Fields.field "category" category (
          Fields.field "status" status (
            Fields.field "tick_size" tick_size (
              Fields.field "qty_step" qty_step (
                Fields.field "min_qty" min_qty (
                  Fields.field "min_notional" min_notional
                    (Fields.field "max_leverage" max_leverage Fields.no_fields)))))))
    Result.ok (extracted, missing_of extracted required_specs)

  -- `(info.get('result') or {}).get('list', [{}])[0]`
  unfoldable pub first_instrument : Fields → Result Failure Json
  unfolding attr_get first_of get_or
  first_instrument info = do
    instruments ←
        attr_get "list" (Json.array (Items.item (Json.object Fields.no_fields) Items.end))
          (or_empty (get_json "result" info))
    first_of instruments

  -- the tests of one instrument, from the reply: what is recorded, and the reasons
  unfoldable pub examine :
      String → Json → Fields × List String → Result Failure (Fields × List String)
  unfolding attr_get
  examine symbol item (extracted, missing) = do
    named ← attr_get "symbol" Json.null item
    category ← attr_get "category" (Json.str "linear") item
    status ← attr_get "status" Json.null item
    Result.ok (
      extracted,
      append
          (if not (is_text symbol named)
              || not (is_text "linear" category)
              || not (is_text "Trading" status)
            then (symbol ++ ":runtime_specs_not_tradable_linear") ∷ []
            else [])
          (if is_empty missing
            then []
            else (symbol ++ ":runtime_specs_missing_or_nonpositive:" ++ join "," missing) ∷ []),
    )

  -- `info` is `adapter.runtime_instruments_info`.
  module _ (info : String → Result Failure Fields) where
    unfoldable pub check_instrument : String → Result Failure (Fields × List String)
    unfolding first_instrument extract_runtime_specs examine
    check_instrument symbol = do
      reply ← info symbol
      item ← first_instrument reply
      specs ← extract_runtime_specs item
      examine symbol item specs

    -- the loop over the universe: `runtime_specs` and `runtime_spec_reasons`
    unfoldable pub check_specs : List String → Fields × List String → Fields × List String
    unfolding check_instrument add_found
    check_specs [] found = found
    check_specs (symbol ∷ symbols) found =
        check_specs symbols (add_found symbol (check_instrument symbol) found)
