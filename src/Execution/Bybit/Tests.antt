-- ===== src/Execution/Bybit/Tests.antt =====
-- The adapter against a client that always gives the same answer.
use one_year_billion.Common.{
  ◌||◌, ◌≤◌, ◌+◌, Bool, true, false, ◌≡◌, refl, none, some, [], String, Result, length, Pass,
  raise_first,
}
use one_year_billion.Common.Fixed.{Fixed, fixed_float, mul_fixed}
use one_year_billion.Common.Int.{pos}
use one_year_billion.Common.Json.{Json, Fields, get_json, is_text, is_null}
use one_year_billion.Execution.Bybit.Values.{equals_number}
use one_year_billion.Execution.Bybit.Session.{BybitConfig, Session}
use one_year_billion.Execution.Bybit.Answers.{is_rate_limit}
use one_year_billion.Execution.Bybit.Client.{Outside, no_credentials}
use one_year_billion.Execution.Bybit.Orders.{
  order_guards, paper_ack, place_order, fetch_all_linear_instruments,
}
use one_year_billion.Execution.Bybit.Orders.Laws.{
  acknowledged, place_order_on_paper, placed_order_sent, IsPosted, instruments_bounded,
}

-- in place of `str`
abbrev as_text : Json → String
as_text (Json.str s) = s
as_text _ = ""

abbrev accepted_answer : Fields
accepted_answer = Fields.field "retCode" (Json.int (pos 0)) Fields.no_fields

abbrev outside_1 : Outside Fixed
outside_1 = record {
  str_of = as_text;
  float_of_text = λ _. none;
  int_of_float = λ _. none;
  monotonic = λ n. fixed_float.lit n 0;
  local_time_ms = pos;
  client = λ _ _. Result.ok record {
    status_code = 200;
    is_success = true;
    reason_phrase = "OK";
    json = some (Json.object accepted_answer);
  };
  hmac_sha256 = λ _ text. text;
}

-- `live` says whether trading is enabled and confirmed.
abbrev config : Bool → BybitConfig
config live = record {
  api_key = "k";
  api_secret = "s";
  testnet = true;
  trading_enabled = live;
  live_confirm = live;
  recv_window_ms = pos 8000;
  time_sync_ttl_sec = pos 60;
  time_safety_margin_ms = pos 250;
  auto_time_sync = false;
}

abbrev session_0 : Session Fixed
session_0 = record {
  limiter = record {
    rate_per_second = fixed_float.lit 5 0;
    burst = fixed_float.lit 10 0;
    tokens = fixed_float.lit 10 0;
    updated_at = fixed_float.lit 0 0;
  };
  degraded_reason = none;
  server_time_offset_ms = none;
  server_time_synced_at_ms = none;
  last_server_time_ms = none;
  last_time_sync_error = none;
  readings = 0;
  sent = [];
}

abbrev order_payload : Fields
order_payload = Fields.field "category" (Json.str "linear") (
    Fields.field "symbol" (Json.str "BTCUSDT") (
      Fields.field "side" (Json.str "Buy") (
        Fields.field "orderType" (Json.str "Limit") (
          Fields.field "qty" (Json.str "1")
            (Fields.field "orderLinkId" (Json.str "cas26-ent-1") Fields.no_fields)))))

abbrev hash_of : Fields → String
hash_of _ = "0123456789abcdef0123"

abbrev dumped : Fields → String
dumped _ = "{}"

place_order_on_paper_example :
    place_order as_text hash_of dumped outside_1 (config false) order_payload session_0 ≡ (
      acknowledged
          (raise_first (order_guards as_text hash_of dumped order_payload))
          (paper_ack as_text hash_of dumped order_payload),
      session_0,
    )
place_order_on_paper_example =
    place_order_on_paper as_text hash_of dumped outside_1 (config false) order_payload session_0
      refl

unfoldable session_1 : Session Fixed
unfolding place_order
session_1 = (place_order as_text hash_of dumped outside_1 (config true) order_payload session_0).1

placed_order_sent_example :
    Pass (order_guards as_text hash_of dumped order_payload)
    × (no_credentials outside_1 (config true) ≡ false)
    × IsPosted as_text hash_of dumped outside_1
        (config true)
        "/v5/order/create"
        (dumped order_payload)
        session_1
    × (is_rate_limit (get_json "retCode" accepted_answer) ≡ false)
    × ((equals_number 0 (get_json "retCode" accepted_answer)
          || is_text "0" (get_json "retCode" accepted_answer)
          || is_null (get_json "retCode" accepted_answer))
        ≡ true)
unfolding place_order mul_fixed equals_number session_1
placed_order_sent_example =
    placed_order_sent as_text hash_of dumped outside_1 (config true) order_payload session_0
      {answer = accepted_answer} {s' = session_1} refl refl

instruments_bounded_example :
    length (fetch_all_linear_instruments outside_1 (config true) 3 session_0).1.sent ≤ 0 + 3
instruments_bounded_example = instruments_bounded outside_1 (config true) 3 session_0
