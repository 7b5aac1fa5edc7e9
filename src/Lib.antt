-- ===== src/Lib.antt =====
-- A model of the trading decisions of the assistant: from a market's regime over the approval of a
-- signal to the one order that is built for it, with what these promise to each other.
--
-- Domain (app/schemas/domain.py) holds the records that the components exchange. Regime
-- (app/regime/classifier.py) says in which regime the market is and which strategies may run.
-- Strategies (app/strategies, a module for each file) proposes candidates for a trade. Risk
-- (app/risk_engine) prices a trade (Cost, cost_model.py), sizes it (Sizing, position_sizing.py) and
-- approves or rejects it (Approval, approval.py). Execution (app/execution) turns an approved decision
-- into an order (Router, order_router.py), once per idempotency key and symbol (Idempotency,
-- idempotency.py), and says which states an order goes through (Lifecycle, state_machine.py).
-- Payload (order_router.py) renders it for the exchange. Bybit (bybit_adapter.py, rate_limiter.py) is
-- the boundary to the exchange: Error its exception, Answers how an answer is read, Session the
-- adapter's own state with the clocks and the requests sent, Client the signed requests, and Orders
-- the calls. Submission (app/api/routes/execution.py) is the way of a live order through the gate, the
-- check of its decision and the reservation of its row (Submission.Decision and Submission.Orders,
-- app/db/repository.py) to the adapter. Live (app/live) holds the gate: Report what a preflight
-- collects, ExchangeChecks and Preflight its checks (preflight.py), Gate its answer (gate.py), and
-- Evidence the records that a decision to go live needs, with the table and its queries in
-- Evidence.Table (app/db/repository.py). Config
-- (app/core/settings.py, app/config/runtime.py) is what the program is configured with, Config.Phase
-- (app/config/phase_validator.py) what a phase of the account may trade, and Security
-- (app/security, a module for each file) says who may read and write, what may start and what is
-- hidden. Ml (app/ml/inference.py) is the verdict of a
-- strategy's model that the approval reads, with the labels it learns (Ml.Labels, labels.py), and
-- Reconciliation (app/reconciliation) compares a
-- position with the exchange's and watches over its protection.
--
-- How the code is modelled:
--   * A `float` is a value of a type parameter whose operations are the record Common.Float.Float;
--     what proofs use of IEEE 754 is in Common.Float.IsIeee. Common.Fixed is a concrete instance at
--     which the laws hold and the tests run. `decimal` and `str` of a float are operations of it.
--   * A `datetime` is a number of microseconds; a function that reads the clock takes the present
--     time. Several readings in one call are one time. A new `uuid4` is an argument, SHA-256 and
--     the hash of a payload are function parameters, and texts are lower- and upper-cased in ASCII.
--   * An object with state is a record that an operation takes and returns: IdempotencyStore for
--     `InMemoryIdempotencyStore`, Memory for the classifier's `_Memory`. An exception is a value of
--     Common.Results.Result with a data type of the errors. A Python dict is an association list,
--     Common.Dictionary.
--   * A chain of `fail_if` or `if ...: raise` is a list of Common.Guards.Guard in the source's order:
--     `collect` gives all reasons, `raise_first` the first. The chain of `approve_signal` is cut into
--     groups of neighbours (Risk.Approval.Checks). A text of a reason is a constructor.
--   * An integer that the code takes as nonnegative (a phase, a number of seconds) is a natural number.
--   * A JSON value is Common.Json.Json, a number with a point by its `repr`. A Python dict of such
--     values is Fields. `str`, `float` and `json.dumps` of a value are parameters.
--   * A preflight takes the answers of the adapter's and the repository's calls as records, each
--     answer a value or an exception with its class and its message.
--   * A method of the adapter is an action on the Session, which it leaves behind also where it
--     raises. The HTTP client answers by the requests sent before; the clocks answer by the number of
--     the reading. Other workers act between the two statements of a reservation, as a function on
--     the tables. The tables of orders keep the unique indexes of migrations/0001_core_schema.sql and
--     the rule of the trigger in migrations/0003_hard_invariants.sql on the state of an entry order;
--     what else the trigger and the CHECKs refuse is a function that the tables have.
-- All functions are structural; the loop over pages takes the number of pages that are left.
--
-- Not modelled: the construction of the configuration from YAML, the training and storage of models
-- (what the registry reads is a parameter), market data, the other HTTP routes, statements of the
-- database that only insert, operator jobs, backtests and the user interface; the parsing of a request
-- into the program's records, which is a parameter; and `thresholds_snapshot` of a regime decision,
-- which repeats constants. Datetimes are aware and within range: a naive one, at which Python raises,
-- is no value of the model.
pub mod Common
pub mod Domain
pub mod Regime
pub mod Strategies
pub mod Ml
pub mod Risk
pub mod Execution
pub mod Reconciliation
pub mod Config
pub mod Live
pub mod Security
