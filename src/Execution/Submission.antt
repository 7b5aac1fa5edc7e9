-- ===== src/Execution/Submission.antt =====
-- app/api/routes/execution.py with what it calls of app/db/repository.py: the submission of an order
-- on paper and to the exchange.
pub mod Decision
pub mod Orders
pub mod Laws
mod Tests
use Prim.Native.String.{◌++◌}
use one_year_billion.Common.{
  ℕ, Bool, true, false, ◌&&◌, ◌||◌, not, Option, none, some, List, [], ◌∷◌, String, ◌≟◌, truthy,
  Dict, is_empty, map, Result, ◌>>=◌, if◌then◌else◌,
}
use one_year_billion.Common.Float.{Float}
use one_year_billion.Common.Json.{Json, Fields, items_of}
use one_year_billion.Domain.{SignalCandidate, RiskDecision, OrderIntent}
use one_year_billion.Live.Gate.{HttpError, http_error}
use one_year_billion.Execution.Payload.{Field, bybit_payload}
use one_year_billion.Execution.Router.{RouterError, Store, build_intent}
use one_year_billion.Execution.Bybit.Error.{Failure, type_name, message_of}
use one_year_billion.Execution.Bybit.Session.{Session, Action}
use one_year_billion.Execution.Submission.Orders.{
  OrderRow, Database, Incident, reserve_order_intent, update_order_submitted, mark_order_error,
  create_incident,
}

-- An answer that is no success: an HTTPException, or an exception that the route lets through.
pub data RouteError : Type 0 where
  http : HttpError → RouteError
  uncaught : RouterError → RouteError
  uncaught_failure : Failure → RouteError

-- What the route reads of the body and the header; the keys are texts, where they are given.
pub record SubmitBody : Type 0 where
  pub signal : Option Json
  pub risk_decision : Option Json
  pub idempotency_key : Option String
  pub x_idempotency_key : Option String

-- what the routes answer
pub data Answer (W : Type 0) : Type 0 where
  submitted : OrderIntent W → Fields → Answer W
  -- the stored order of a repeated key
  replayed : OrderRow W → Answer W

-- The state that a request changes: the router's store, the tables, and the session of the adapter,
-- which the route makes anew for the request.
pub record World (W : Type 0) : Type 0 where
  pub store : Store W
  pub database : Database W
  pub session : Session W

abbrev pub Outcome : Type 0 → Type 0
Outcome W = Result RouteError (Answer W) × World W

-- the order's fields as a JSON object
unfoldable pub payload_fields : Dict Field → Fields
payload_fields [] = Fields.no_fields
payload_fields ((k, Field.text s) ∷ d) = Fields.field k (Json.str s) (payload_fields d)
payload_fields ((k, Field.flag b) ∷ d) = Fields.field k (Json.bool b) (payload_fields d)

abbrev pub present : Option String → Option String
present none = none
present (some s) = if truthy s then some s else none

-- `x_idempotency_key or payload.get('idempotency_key')`, where it is not empty
unfoldable pub key_of : SubmitBody → Option String
key_of body = elim (present body.x_idempotency_key) [
  | some key ↦ some key
  | none ↦ present body.idempotency_key
]

-- one field of the body: `parse` is the model's constructor, with the class of its exception
abbrev pub parse_field : {A : Type 0} → (Json → Result String A) → Option Json → Result String A
parse_field parse none = Result.raised "KeyError"
parse_field parse (some v) = parse v

module _ {W R : Type 0} (signal_of : Json → Result String (SignalCandidate W))
    (risk_of : Json → Result String (RiskDecision W R)) where
  abbrev pub bad_payload : {A : Type 0} → Result String A → Result RouteError A
  bad_payload (Result.ok a) = Result.ok a
  bad_payload (Result.raised name) =
      Result.raised (RouteError.http (http_error 400 ("invalid_execution_payload:" ++ name)))

  -- `_parse_execution_payload`
  unfoldable pub parse_execution_payload :
      SubmitBody → Result RouteError (SignalCandidate W × RiskDecision W R)
  parse_execution_payload body = bad_payload (do
    signal ← parse_field signal_of body.signal
    risk ← parse_field risk_of body.risk_decision
    Result.ok (signal, risk))

abbrev pub http_raised : {W A : Type 0} → ℕ → String → World W → Result RouteError A × World W
http_raised status detail w = (Result.raised (RouteError.http (http_error status detail)), w)

-- the answer of the exchange to a new order, once it is stored
abbrev pub record_submitted :
    {W : Type 0}
    → OrderIntent W
    → Fields
    → Session W
    → World W
    → Result Failure (Database W)
    → Outcome W
record_submitted intent ack session w (Result.ok database) =
    (Result.ok (Answer.submitted intent ack), record w { session = session; database = database })
record_submitted intent ack session w (Result.raised e) =
    (Result.raised (RouteError.uncaught_failure e), record w { session = session })

-- the answer to a failure of the exchange: it is not known whether the exchange took the order
abbrev pub uncertain : String → String → HttpError
uncertain reason client_order_id = record {
  status_code = 502;
  detail = Json.object (
      Fields.field "live_submit_uncertain_result" (Json.str "reconciliation_required") (
        Fields.field "reason" (Json.str reason)
          (Fields.field "client_order_id" (Json.str client_order_id) Fields.no_fields)));
}

abbrev pub failed_incident : {W : Type 0} → SignalCandidate W → OrderIntent W → String → Incident
failed_incident signal intent reason = record {
  severity = "HIGH";
  kind = "LIVE_SUBMIT_FAILED_RECONCILIATION_REQUIRED";
  component = "execution";
  symbol = signal.symbol;
  error = reason;
  client_order_id = intent.client_order_id;
  trace_id = signal.trace_id;
}

-- `f'{type(exc).__name__}:{exc}'`
abbrev pub reason_of : (Json → String) → Failure → String
reason_of str_of e = type_name e ++ ":" ++ message_of str_of e

-- after the row of a failed order is marked, or could not be
abbrev pub note_failure :
    {W : Type 0}
    → SignalCandidate W
    → OrderIntent W
    → String
    → World W
    → Result Failure (Database W)
    → Outcome W
unfolding create_incident
note_failure signal intent reason w (Result.ok database) = (
  Result.raised (RouteError.http (uncertain reason intent.client_order_id)),
  record w { database = create_incident (failed_incident signal intent reason) database },
)
note_failure signal intent reason w (Result.raised e) =
    (Result.raised (RouteError.uncaught_failure e), w)

-- the answer of the exchange to a new order, or its failure
unfoldable pub settle_submission :
    {W : Type 0}
    → (Json → String)
    → SignalCandidate W
    → OrderIntent W
    → Result Failure Fields × Session W
    → World W
    → Outcome W
unfolding update_order_submitted mark_order_error create_incident message_of
settle_submission str_of signal intent (Result.ok ack, session) w =
    record_submitted intent ack session w
      (update_order_submitted intent.client_order_id ack w.database)
settle_submission str_of signal intent (Result.raised e, session) w =
    note_failure signal intent (reason_of str_of e) (record w { session = session })
      (mark_order_error intent.client_order_id w.database)

-- `place` is what is done with the payload by the adapter.
module _ {W R : Type 0} ⦃f : Float W⦄ (str_of : Json → String)
    (place : Fields → Action W Fields) where
  -- the answer to a key whose order is stored already
  unfoldable pub answer_existing :
      SignalCandidate W → RiskDecision W R → Option (OrderRow W) → World W → Outcome W
  answer_existing signal risk none w = http_raised 409 "idempotency_conflict_without_row" w
  answer_existing signal risk (some existing) w =
      if not (existing.intent.signal_id ≟ signal.signal_id)
        || not (existing.intent.risk_decision_id ≟ risk.risk_decision_id)
      then http_raised 409 "idempotency_key_reused_with_different_order" w
      else (Result.ok (Answer.replayed existing), w)

  -- after the reservation: only a new order is placed
  unfoldable pub place_reserved :
      SignalCandidate W
      → RiskDecision W R
      → OrderIntent W
      → Bool × Option (OrderRow W)
      → World W
      → Outcome W
  unfolding settle_submission answer_existing payload_fields bybit_payload
  place_reserved signal risk intent (true, _) w =
      settle_submission str_of signal intent
        (place (payload_fields (bybit_payload intent)) w.session) w
  place_reserved signal risk intent (false, existing) w = answer_existing signal risk existing w

  -- after the reservation, which an exception of the database may end
  abbrev pub place_if_reserved :
      SignalCandidate W
      → RiskDecision W R
      → OrderIntent W
      → Result Failure (Bool × Option (OrderRow W)) × Database W
      → World W
      → Outcome W
  unfolding place_reserved
  place_if_reserved signal risk intent (Result.ok reserved, database) w =
      place_reserved signal risk intent reserved (record w { database = database })
  place_if_reserved signal risk intent (Result.raised e, database) w =
      (Result.raised (RouteError.uncaught_failure e), record w { database = database })

  -- after the decision is verified: the order, its reservation and its placing; `others` is what
  -- other workers commit between the two statements of the reservation
  unfoldable pub submit_built :
      (Database W → Database W)
      → SignalCandidate W
      → RiskDecision W R
      → Result RouterError (OrderIntent W × Store W)
      → World W
      → Outcome W
  unfolding place_reserved reserve_order_intent
  submit_built others signal risk (Result.raised e) w = (Result.raised (RouteError.uncaught e), w)
  submit_built others signal risk (Result.ok (intent, store)) w =
      place_if_reserved signal risk intent (reserve_order_intent others intent w.database)
        (record w { store = store })

  module _ (sha256_hex : String → String) (signal_of : Json → Result String (SignalCandidate W))
      (risk_of : Json → Result String (RiskDecision W R))
      (verify : RiskDecision W R → List String) where
    -- after the gate and the payload; `verify` is `verify_live_risk_decision`, whose reasons are
    -- empty just where it accepts
    unfoldable pub submit_parsed :
        (Database W → Database W)
        → ℕ
        → String
        → Bool
        → Option String
        → Result RouteError (SignalCandidate W × RiskDecision W R)
        → World W
        → Outcome W
    unfolding submit_built build_intent
    submit_parsed others now order_id has_repository key (Result.raised e) w = (Result.raised e, w)
    submit_parsed others now order_id has_repository none (Result.ok (signal, risk)) w =
        http_raised 400 "idempotency_key_required" w
    submit_parsed others now order_id has_repository (some key) (Result.ok (signal, risk)) w =
        if not has_repository
        then http_raised 423 "database_repository_required_for_live" w
        else (if not (is_empty (verify risk))
            then (
              Result.raised (
                  RouteError.http record {
                    status_code = 423;
                    detail = Json.object (
                        Fields.field "risk_decision_db_gate_failed"
                          (Json.array (items_of (map Json.str (verify risk)))) Fields.no_fields);
                  }),
              w,
            )
            else submit_built others signal risk
                (build_intent sha256_hex now order_id signal risk key w.store) w)

    -- `live_submit`; `gate` is the answer of `assert_live_submit_allowed`
    unfoldable pub live_submit :
        (Database W → Database W)
        → ℕ
        → String
        → Bool
        → Result HttpError Fields
        → SubmitBody
        → World W
        → Outcome W
    unfolding submit_parsed parse_execution_payload key_of
    live_submit others now order_id has_repository (Result.raised e) body w =
        (Result.raised (RouteError.http e), w)
    live_submit others now order_id has_repository (Result.ok _) body w =
        submit_parsed others now order_id has_repository (key_of body)
          (parse_execution_payload signal_of risk_of body) w

    abbrev pub answer_paper :
        OrderIntent W → Result Failure Fields × Session W → World W → Outcome W
    answer_paper intent (Result.ok ack, session) w =
        (Result.ok (Answer.submitted intent ack), record w { session = session })
    answer_paper intent (Result.raised e, session) w =
        (Result.raised (RouteError.uncaught_failure e), record w { session = session })

    abbrev pub place_paper : Result RouterError (OrderIntent W × Store W) → World W → Outcome W
    place_paper (Result.raised e) w = (Result.raised (RouteError.uncaught e), w)
    place_paper (Result.ok (intent, store)) w =
        answer_paper intent (place (payload_fields (bybit_payload intent)) w.session)
          (record w { store = store })

    abbrev pub paper_parsed :
        ℕ
        → String
        → Option String
        → Result RouteError (SignalCandidate W × RiskDecision W R)
        → World W
        → Outcome W
    paper_parsed now order_id key (Result.raised e) w = (Result.raised e, w)
    paper_parsed now order_id none (Result.ok _) w = http_raised 400 "idempotency_key_required" w
    paper_parsed now order_id (some key) (Result.ok (signal, risk)) w =
        place_paper (build_intent sha256_hex now order_id signal risk key w.store) w

    -- `paper_submit`, whose adapter has neither flag of live trading
    unfoldable pub paper_submit : ℕ → String → SubmitBody → World W → Outcome W
    unfolding parse_execution_payload key_of build_intent payload_fields bybit_payload
    paper_submit now order_id body w =
        paper_parsed now order_id (key_of body) (parse_execution_payload signal_of risk_of body) w
