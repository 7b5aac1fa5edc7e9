-- ===== src/Execution/Submission/Tests.antt =====
-- Submissions of a concrete order to an adapter that takes it, and to one that fails.
use one_year_billion.Common.{
  take, decimal, true, false, ◌≡◌, refl, ap, arith, Option, none, some, List, [], ◌∷◌, String,
  Result, All, lower, get,
}
use one_year_billion.Common.Fixed.{Fixed, fixed_float, Fixed-IsIeee, mul_fixed}
use one_year_billion.Common.Json.{Json, Fields, truthy_json}
use one_year_billion.Domain.{SignalCandidate, RiskDecision, OrderIntent}
use one_year_billion.Live.Gate.{HttpError}
use one_year_billion.Execution.Samples.{money, digest, signal_1, risk_1, store_0}
use one_year_billion.Common.Int.{◌-ℤ◌}
use one_year_billion.Execution.Idempotency.{
  deterministic_order_link_id, namespaced_idempotency_key, get_response, lock_symbol, put_response,
}
use one_year_billion.Execution.Router.{new_intent, enter, assert_enterable}
use one_year_billion.Execution.Bybit.Error.{Failure}
use one_year_billion.Execution.Bybit.Session.{Session, Action}
use one_year_billion.Execution.Submission.Orders.{
  OrderRow, Database, new_row, row_refused, clashing, get_order_by_idempotency,
  reserve_order_intent,
}
use one_year_billion.Execution.Submission.Decision.{
  DecisionRow, is_expired, compared, verify_live_risk_decision,
}
use one_year_billion.Execution.Submission.Decision.Laws.{Agrees, verified_decision_stored}
use one_year_billion.Execution.Submission.{
  RouteError, SubmitBody, World, key_of, parse_execution_payload, submit_built, live_submit,
}
use one_year_billion.Execution.Submission.Laws.{
  Reaches, failed_entry_unmarked, submission_needs_all, reserved_order_read_back,
}

abbrev as_text : Json → String
as_text (Json.str s) = s
as_text _ = ""

abbrev session_0 : Session Fixed
session_0 = record {
  limiter = record {
    rate_per_second = money 5;
    burst = money 10;
    tokens = money 10;
    updated_at = money 0;
  };
  degraded_reason = none;
  server_time_offset_ms = none;
  server_time_synced_at_ms = none;
  last_server_time_ms = none;
  last_time_sync_error = none;
  readings = 0;
  sent = [];
}

abbrev world_0 : World Fixed
world_0 = record {
  store = store_0;
  database = record { orders = []; incidents = []; refuses = λ _. none };
  session = session_0;
}

abbrev order_1 : OrderIntent Fixed
order_1 = new_intent digest "o1" signal_1 risk_1 "k1"

abbrev timeout : Failure
timeout = Failure.other "TimeoutError" "timed out"

abbrev fails : Fields → Action Fixed Fields
fails _ s = (Result.raised timeout, s)

-- an adapter that takes the order and reads its clock once
abbrev takes : Fields → Action Fixed Fields
takes _ s = (Result.ok Fields.no_fields, record s { readings = 1 })

abbrev alone : Database Fixed → Database Fixed
alone db = db

failed_entry_unmarked_example :
    (let p =
        submit_built as_text fails alone signal_1 risk_1 (Result.ok (order_1, store_0)) world_0 in
      ((e' : Failure) × (p.0 ≡ Result.raised (RouteError.uncaught_failure e')))
      × (get_order_by_idempotency order_1.idempotency_key p.1.database ≡ some (new_row order_1))
      × (p.1.database.incidents ≡ [])
      × (p.1.store ≡ store_0))
unfolding get_order_by_idempotency get new_intent row_refused clashing
failed_entry_unmarked_example =
    failed_entry_unmarked as_text fails alone signal_1 risk_1 order_1 store_0 timeout session_0
      world_0 refl refl refl refl refl refl

abbrev body_1 : SubmitBody
body_1 = record {
  signal = some Json.null;
  risk_decision = some Json.null;
  idempotency_key = none;
  x_idempotency_key = some "k1";
}

abbrev signal_of : Json → Result String (SignalCandidate Fixed)
signal_of _ = Result.ok signal_1

abbrev risk_of : Json → Result String (RiskDecision Fixed String)
risk_of _ = Result.ok risk_1

abbrev no_reasons : RiskDecision Fixed String → List String
no_reasons _ = []

adapter_used :
    (live_submit as_text takes digest signal_of risk_of no_reasons alone 500 "o1" true
      (Result.ok Fields.no_fields)
      body_1
      world_0).1.session.readings
    ≡ 1
unfolding live_submit row_refused clashing namespaced_idempotency_key get_response get enter
    assert_enterable lower lock_symbol put_response truthy_json new_intent
    deterministic_order_link_id take decimal
adapter_used = refl

submission_needs_all_example :
    ((passed : Fields) × (◌≡◌ {A = Result HttpError Fields}
        (Result.ok Fields.no_fields)
        (Result.ok passed)))
    × Reaches as_text takes alone digest signal_of risk_of no_reasons 500 "o1" true
        (key_of body_1)
        (parse_execution_payload signal_of risk_of body_1)
        world_0
unfolding live_submit
submission_needs_all_example =
    submission_needs_all as_text takes alone digest signal_of risk_of no_reasons 500 "o1" true
      (Result.ok Fields.no_fields) body_1 world_0
      (λ e. absurd (omega (arith, ap (λ s. s.readings) e, adapter_used)))

abbrev sizing_1 : String → Option (Option Fixed)
unfolding get
sizing_1 name = get name (
    ("qty", some (money 32))
    ∷ ("notional", some (money 3200))
    ∷ ("risk_budget", some (money 100))
    ∷ ("max_loss_if_stop", some (money 99))
    ∷ ("expected_net_edge_bps", some (money 48))
    ∷ [])

abbrev row_1 : DecisionRow Fixed
row_1 = record {
  approved = true;
  expires_at = some 700;
  signal_id = "s1";
  feature_hash = "h1";
  config_hash = "c1";
  sizing = sizing_1;
}

verified_decision_stored_example :
    (row_1.approved ≡ true)
    × (is_expired 500 row_1.expires_at ≡ false)
    × (row_1.signal_id ≡ risk_1.signal_id)
    × (row_1.feature_hash ≡ risk_1.feature_hash)
    × (row_1.config_hash ≡ risk_1.config_hash)
    × All (Agrees row_1) (compared risk_1)
unfolding verify_live_risk_decision sizing_1 mul_fixed ◌-ℤ◌
verified_decision_stored_example = verified_decision_stored Fixed-IsIeee 500 row_1 risk_1 refl

reserved_order_read_back_example :
    (let p = reserve_order_intent alone order_1 world_0.database in
      (row : OrderRow Fixed) × (row.intent ≡ order_1)
      × (p.0 ≡ Result.ok (true, some row))
      × (get_order_by_idempotency order_1.idempotency_key p.1 ≡ some row)
      × (reserve_order_intent alone order_1 p.1 ≡ (Result.ok (false, some row), p.1)))
unfolding get_order_by_idempotency get new_intent row_refused clashing
reserved_order_read_back_example =
    reserved_order_read_back alone alone order_1 order_1 world_0.database refl refl refl refl refl
