-- ===== src/Execution/Submission/Orders.antt =====
-- The table of orders and that of incidents in app/db/repository.py, with the constraints that
-- migrations/0001_core_schema.sql and 0003_hard_invariants.sql put on the orders. A statement is
-- atomic; what other workers commit between the two statements of a reservation is a parameter.
use one_year_billion.Common.{
  Bool, true, false, ◌&&◌, ◌||◌, not, Option, none, some, List, [], ◌∷◌, String, ◌≟◌, Dict, get,
  put, Result, if◌then◌else◌,
}
use one_year_billion.Common.Json.{Json, Fields, get_json, get_or}
use one_year_billion.Domain.{OrderIntent, OrderState}
use one_year_billion.Execution.Bybit.Error.{Failure}
use one_year_billion.Execution.Bybit.Values.{attr_get, or_empty}

pub data RowState : Type 0 where
  -- the state of the intent, as it is inserted
  as_intended order_submitted error_reconciliation_required : RowState

pub record OrderRow (W : Type 0) : Type 0 where
  pub intent : OrderIntent W
  pub state : RowState
  pub exchange_order_id : Json

pub record Incident : Type 0 where
  pub severity : String
  pub kind : String
  pub component : String
  pub symbol : String
  pub error : String
  pub client_order_id : String
  pub trace_id : String

-- `orders` by its unique column `idempotency_key`. `refuses` is what the tables of decisions and
-- signals, the CHECKs of the columns and the caps of the trigger hold against writing a row: the
-- exception, if there is one.
pub record Database (W : Type 0) : Type 0 where
  pub orders : Dict (OrderRow W)
  pub incidents : List Incident
  pub refuses : OrderRow W → Option Failure

-- `(exchange_ack.get('result') or {}).get('orderId')`
abbrev pub exchange_id_of : Fields → Result Failure Json
exchange_id_of ack = attr_get "orderId" Json.null (or_empty (get_json "result" ack))

-- `NEW.state NOT IN ('APPROVED','ORDER_SUBMITTED')` of the trigger on `orders`
abbrev pub entry_state_refused : Failure
entry_state_refused =
    Failure.other "RaiseException" "new entry order must start from approved/submitted state"

abbrev pub unique_violation : Failure
unique_violation = Failure.other "UniqueViolation" "duplicate key value violates unique constraint"

abbrev pub is_entry_state : OrderState → Bool
is_entry_state OrderState.approved = true
is_entry_state OrderState.order_submitted = true
is_entry_state _ = false

abbrev pub is_pending_state : OrderState → Bool
is_pending_state OrderState.approved = true
is_pending_state OrderState.order_submitted = true
is_pending_state OrderState.partially_filled = true
is_pending_state OrderState.filled = true
is_pending_state OrderState.protected_with_sltp = true
is_pending_state _ = false

-- with the unique indexes that the row of `key` would break
abbrev pub refused_or_clashing : Option Failure → Bool → Option Failure
refused_or_clashing (some e) _ = some e
refused_or_clashing none clash = if clash then some unique_violation else none

module _ {W : Type 0} where
  -- the column `state`
  abbrev pub state_of : OrderRow W → OrderState
  state_of row = elim row.state [
    | RowState.as_intended ↦ row.intent.state
    | RowState.order_submitted ↦ OrderState.order_submitted
    | RowState.error_reconciliation_required ↦ OrderState.error_reconciliation_required
  ]

  -- with the trigger's rule on the state of an entry order
  abbrev pub refused_or_misplaced : Option Failure → OrderRow W → Option Failure
  refused_or_misplaced (some e) row = some e
  refused_or_misplaced none row =
      if not row.intent.reduce_only && not (is_entry_state (state_of row))
      then some entry_state_refused
      else none

  -- the exception of `trg_validate_order_risk_decision` or of a CHECK for a row that is written
  unfoldable pub row_refused : Database W → OrderRow W → Option Failure
  row_refused db row = refused_or_misplaced (db.refuses row) row

  -- the rows of the partial index `one_pending_entry_per_symbol`
  abbrev pub is_pending_entry : OrderRow W → Bool
  is_pending_entry row = not row.intent.reduce_only && is_pending_state (state_of row)

  -- another row than that of `key` has the client's identifier, or the pending entry of the symbol
  unfoldable pub clashing : String → OrderRow W → Dict (OrderRow W) → Bool
  clashing key row [] = false
  clashing key row ((j, other) ∷ rows) =
      not (j ≟ key)
        && (other.intent.client_order_id ≟ row.intent.client_order_id
            || is_pending_entry row
              && is_pending_entry other
              && other.intent.symbol ≟ row.intent.symbol)
      || clashing key row rows

  unfoldable pub get_order_by_idempotency : String → Database W → Option (OrderRow W)
  get_order_by_idempotency key db = get key db.orders

  abbrev pub new_row : OrderIntent W → OrderRow W
  new_row intent = record {
    intent = intent;
    state = RowState.as_intended;
    exchange_order_id = Json.null;
  }

  -- the trigger and the CHECKs, the conflict on the key, and the other unique indexes
  abbrev pub insert_if :
      Option Failure
      → Option (OrderRow W)
      → Bool
      → OrderIntent W
      → Database W
      → Result Failure (Option (OrderRow W) × Database W)
  insert_if (some e) _ _ intent db = Result.raised e
  insert_if none (some _) _ intent db = Result.ok (none, db)
  insert_if none none true intent db = Result.raised unique_violation
  insert_if none none false intent db = Result.ok (
    some (new_row intent),
    record db { orders = put intent.idempotency_key (new_row intent) db.orders },
  )

  -- `INSERT ... ON CONFLICT (idempotency_key) DO NOTHING RETURNING *`
  unfoldable pub insert_order :
      OrderIntent W → Database W → Result Failure (Option (OrderRow W) × Database W)
  unfolding put get_order_by_idempotency row_refused clashing
  insert_order intent db =
      insert_if (row_refused db (new_row intent))
        (get_order_by_idempotency intent.idempotency_key db)
        (clashing intent.idempotency_key (new_row intent) db.orders) intent db

  abbrev pub inserted_or_read :
      OrderIntent W
      → Database W
      → Result Failure (Option (OrderRow W) × Database W)
      → Result Failure (Bool × Option (OrderRow W)) × Database W
  inserted_or_read intent before (Result.ok (some row, db)) = (Result.ok (true, some row), db)
  inserted_or_read intent before (Result.ok (none, db)) =
      (Result.ok (false, get_order_by_idempotency intent.idempotency_key db), db)
  inserted_or_read intent before (Result.raised e) = (Result.raised e, before)

  abbrev pub reserve_if :
      Option (OrderRow W)
      → (Database W → Database W)
      → OrderIntent W
      → Database W
      → Result Failure (Bool × Option (OrderRow W)) × Database W
  reserve_if (some existing) others intent db = (Result.ok (false, some existing), db)
  reserve_if none others intent db =
      inserted_or_read intent (others db) (insert_order intent (others db))

  -- whether the order is new, with the stored row
  unfoldable pub reserve_order_intent :
      (Database W → Database W)
      → OrderIntent W
      → Database W
      → Result Failure (Bool × Option (OrderRow W)) × Database W
  unfolding get_order_by_idempotency insert_order
  reserve_order_intent others intent db =
      reserve_if (get_order_by_idempotency intent.idempotency_key db) others intent db

  abbrev pub update_refused : Database W → String → OrderRow W → Option Failure
  update_refused db key row = refused_or_clashing (row_refused db row) (clashing key row db.orders)

  abbrev pub put_row :
      String
      → OrderRow W
      → Option Failure
      → Result Failure (Dict (OrderRow W))
      → Result Failure (Dict (OrderRow W))
  put_row key row (some e) rows = Result.raised e
  put_row key row none (Result.raised e) = Result.raised e
  put_row key row none (Result.ok rows) = Result.ok ((key, row) ∷ rows)

  -- `UPDATE orders SET ... WHERE client_order_id=%s`: one refused row fails the statement.
  unfoldable pub update_rows :
      Database W
      → String
      → (OrderRow W → OrderRow W)
      → Dict (OrderRow W)
      → Result Failure (Dict (OrderRow W))
  unfolding row_refused clashing
  update_rows db client_order_id change [] = Result.ok []
  update_rows db client_order_id change ((key, row) ∷ rows) =
      let later = update_rows db client_order_id change rows in
      if row.intent.client_order_id ≟ client_order_id
      then put_row key (change row) (update_refused db key (change row)) later
      else put_row key row none later

  abbrev pub with_orders :
      Database W → Result Failure (Dict (OrderRow W)) → Result Failure (Database W)
  with_orders db (Result.ok rows) = Result.ok (record db { orders = rows })
  with_orders db (Result.raised e) = Result.raised e

  abbrev pub set_submitted : String → Json → Database W → Result Failure (Database W)
  set_submitted client_order_id exchange_order_id db = with_orders db (
      update_rows db client_order_id
        (λ row. record row {
          state = RowState.order_submitted;
          exchange_order_id = exchange_order_id;
        })
        db.orders)

  abbrev pub with_id : String → Database W → Result Failure Json → Result Failure (Database W)
  with_id client_order_id db (Result.ok id) = set_submitted client_order_id id db
  with_id client_order_id db (Result.raised e) = Result.raised e

  unfoldable pub update_order_submitted : String → Fields → Database W → Result Failure (Database W)
  unfolding update_rows get_or attr_get
  update_order_submitted client_order_id ack db = with_id client_order_id db (exchange_id_of ack)

  abbrev pub set_error : OrderRow W → OrderRow W
  set_error row = record row { state = RowState.error_reconciliation_required }

  unfoldable pub mark_order_error : String → Database W → Result Failure (Database W)
  unfolding update_rows
  mark_order_error client_order_id db =
      with_orders db (update_rows db client_order_id set_error db.orders)

  unfoldable pub create_incident : Incident → Database W → Database W
  create_incident incident db = record db { incidents = incident ∷ db.incidents }
