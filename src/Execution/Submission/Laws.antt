-- ===== src/Execution/Submission/Laws.antt =====
-- When a submission reaches the exchange, and what is kept of one that fails.
use one_year_billion.Common.{
  ℕ, Bool, true, false, ◌≡◌, ◌≢◌, refl, ap, ◌∙◌, arith, inl, inr, Bool-cases, Option, none, some,
  List, [], ◌∷◌, String, ◌≟◌, ≟_refl, Dict, get, put, get-put, is_empty, Result, Option-cases,
  if◌then◌else◌,
}
use one_year_billion.Common.Float.{Float}
use one_year_billion.Common.Json.{Json, Fields}
use one_year_billion.Domain.{SignalCandidate, RiskDecision, OrderIntent}
use one_year_billion.Live.Gate.{HttpError}
use one_year_billion.Execution.Payload.{bybit_payload}
use one_year_billion.Execution.Router.{RouterError, Store, build_intent}
use one_year_billion.Execution.Bybit.Error.{Failure}
use one_year_billion.Execution.Bybit.Session.{Session, Action}
use one_year_billion.Execution.Submission.Orders.{
  OrderRow, Database, new_row, row_refused, clashing, get_order_by_idempotency, insert_order,
  put_row, update_refused, set_error, entry_state_refused, reserve_order_intent, update_rows,
  mark_order_error,
}
use one_year_billion.Execution.Submission.{
  RouteError, SubmitBody, World, payload_fields, key_of, parse_execution_payload, settle_submission,
  answer_existing, place_reserved, place_if_reserved, submit_built, submit_parsed, live_submit,
}

module _ {W : Type 0} where
  -- An exception for a later row is one for the statement.
  put_row-raised :
      (key : String) (row row' : OrderRow W) (e : Failure) (o : Option Failure) (b : Bool)
      → (e' : Failure) × ((if b
            then put_row key row' o (Result.raised e)
            else put_row key row none (Result.raised e))
          ≡ Result.raised e')
  put_row-raised key row row' e none true = (e, refl)
  put_row-raised key row row' e (some first) true = (first, refl)
  put_row-raised key row row' e o false = (e, refl)

  -- A reservation that inserts has found no row under the key in either statement, and no constraint
  -- against its row.
  reserved_new :
      (others : Database W → Database W) (intent : OrderIntent W) (db : Database W)
      {o : Option (OrderRow W)} {after : Database W}
      → reserve_order_intent others intent db ≡ (Result.ok (true, o), after)
      → (get_order_by_idempotency intent.idempotency_key db ≡ none)
        × (get_order_by_idempotency intent.idempotency_key (others db) ≡ none)
        × (row_refused (others db) (new_row intent) ≡ none)
        × (clashing intent.idempotency_key (new_row intent) (others db).orders ≡ false)
  unfolding reserve_order_intent insert_order get_order_by_idempotency
  reserved_new others intent db h = ground arith

  -- A statement that refuses the row that it writes at a key writes nothing.
  update_rows-refused :
      (db : Database W) (client_order_id key : String) (change : OrderRow W → OrderRow W)
      (rows : Dict (OrderRow W)) (row : OrderRow W) (e : Failure)
      → get key rows ≡ some row
      → (row.intent.client_order_id ≟ client_order_id) ≡ true
      → ((k : String) → update_refused db k (change row) ≡ some e)
      → (e' : Failure) × (update_rows db client_order_id change rows ≡ Result.raised e')
  unfolding get update_rows
  update_rows-refused db client_order_id key change [] row e h k refused = cc
  update_rows-refused db client_order_id key change ((j, other) ∷ rows) row e h k refused =
      elim (Bool-cases (j ≟ key)) [
        | inl same ↦ let found : other ≡ row = ground arith in (e, rw (found, k, refused j) refl)
        | inr apart ↦
            let later : get key rows ≡ some row = ground arith in
            let (e', raised) =
              update_rows-refused db client_order_id key change rows row e later k refused in
            rw raised (
              put_row-raised j other (change other) e' (update_refused db j (change other))
                (other.intent.client_order_id ≟ client_order_id))
      ]

  -- The order was built, and no row was stored under its key.
  abbrev pub BuiltNew :
      (Database W → Database W) → Result RouterError (OrderIntent W × Store W) → Database W → Type 0
  BuiltNew others built db =
      (intent : OrderIntent W) × (store : Store W) × (built ≡ Result.ok (intent, store))
      × (get_order_by_idempotency intent.idempotency_key db ≡ none)
      × (get_order_by_idempotency intent.idempotency_key (others db) ≡ none)

  -- The trigger on the orders lets no entry order into the state that asks for reconciliation.
  error_refused :
      (db : Database W) (row : OrderRow W)
      → row.intent.reduce_only ≡ false
      → (e : Failure) × (row_refused db (set_error row) ≡ some e)
  unfolding row_refused
  error_refused db row entry = elim (Option-cases (db.refuses (set_error row))) [
    | inl none_there ↦ (entry_state_refused, rw (none_there, entry) refl)
    | inr (e, there) ↦ (e, rw there refl)
  ]

  refused_update :
      (db : Database W) (key : String) (row : OrderRow W) (e : Failure)
      → row_refused db row ≡ some e
      → update_refused db key row ≡ some e
  refused_update db key row e h = rw (update_refused, h) refl

  -- The row of a failed entry order cannot be marked: the exception of the database ends the request.
  failed-settle :
      (str_of : Json → String) (signal : SignalCandidate W) (intent : OrderIntent W) (e : Failure)
      (session : Session W) (w : World W) (row : OrderRow W)
      → get_order_by_idempotency intent.idempotency_key w.database ≡ some row
      → row.intent ≡ intent
      → intent.reduce_only ≡ false
      → (e' : Failure) × (settle_submission str_of signal intent (Result.raised e, session) w
          ≡ (Result.raised (RouteError.uncaught_failure e'), record w { session = session }))
  unfolding settle_submission mark_order_error get_order_by_idempotency
  failed-settle str_of signal intent e session w row h same entry =
      let (refusal, refused) =
        error_refused w.database row (ap (λ i. i.reduce_only) same ∙ entry) in
      let (e', raised) =
        update_rows-refused w.database intent.client_order_id intent.idempotency_key set_error
          w.database.orders row refusal h
          (rw (ap (λ i. i.client_order_id) same) (≟_refl intent.client_order_id))
          (λ k. refused_update w.database k (set_error row) refusal refused) in
      (e', rw raised refl)

  -- the database with the order's row
  abbrev pub with_row : OrderIntent W → Database W → Database W
  with_row intent db = record db { orders = put intent.idempotency_key (new_row intent) db.orders }

  stored_row :
      (intent : OrderIntent W) (db : Database W)
      → get_order_by_idempotency intent.idempotency_key (with_row intent db) ≡ some (new_row intent)
  unfolding get_order_by_idempotency
  stored_row intent db =
      get-put intent.idempotency_key intent.idempotency_key (new_row intent) db.orders
      ∙ rw (≟_refl intent.idempotency_key) refl

  inserted :
      (others : Database W → Database W) (intent : OrderIntent W) (db : Database W)
      → get_order_by_idempotency intent.idempotency_key db ≡ none
      → get_order_by_idempotency intent.idempotency_key (others db) ≡ none
      → row_refused (others db) (new_row intent) ≡ none
      → clashing intent.idempotency_key (new_row intent) (others db).orders ≡ false
      → reserve_order_intent others intent db
        ≡ (Result.ok (true, some (new_row intent)), with_row intent (others db))
  unfolding reserve_order_intent insert_order
  inserted others intent db h k free apart = rw (h, k, free, apart) refl

module _ {W : Type 0} where
  repeated :
      (others : Database W → Database W) (intent : OrderIntent W) (db : Database W)
      (row : OrderRow W)
      → get_order_by_idempotency intent.idempotency_key db ≡ some row
      → reserve_order_intent others intent db ≡ (Result.ok (false, some row), db)
  unfolding reserve_order_intent
  repeated others intent db row h = rw h refl

  -- A reservation under a key that no worker has used, of a row that the trigger, the CHECKs and the
  -- other unique indexes of the table allow, stores the order, which is read back under its key; and
  -- any later reservation under the same key, by any worker and for any order, changes nothing and
  -- returns the stored row.
  pub reserved_order_read_back :
      (others later : Database W → Database W) (intent other : OrderIntent W) (db : Database W)
      → get_order_by_idempotency intent.idempotency_key db ≡ none
      → get_order_by_idempotency intent.idempotency_key (others db) ≡ none
      → row_refused (others db) (new_row intent) ≡ none
      → clashing intent.idempotency_key (new_row intent) (others db).orders ≡ false
      → other.idempotency_key ≡ intent.idempotency_key
      → (let p = reserve_order_intent others intent db in
          (row : OrderRow W) × (row.intent ≡ intent)
          × (p.0 ≡ Result.ok (true, some row))
          × (get_order_by_idempotency intent.idempotency_key p.1 ≡ some row)
          × (reserve_order_intent later other p.1 ≡ (Result.ok (false, some row), p.1)))
  reserved_order_read_back others later intent other db h k free apart same =
      let e = inserted others intent db h k free apart in
      let stored = stored_row intent (others db) in
      (
        new_row intent,
        refl,
        ap (λ p. p.0) e,
        rw e stored,
        rw e (repeated later other (with_row intent (others db)) (new_row intent) (rw same stored)),
      )

module _ {W R : Type 0} ⦃f : Float W⦄ (str_of : Json → String) (place : Fields → Action W Fields)
    (others : Database W → Database W) where
  session-answer_existing :
      (signal : SignalCandidate W) (risk : RiskDecision W R) (existing : Option (OrderRow W))
      (w : World W)
      → (answer_existing str_of place signal risk existing w).1.session ≡ w.session
  unfolding answer_existing
  session-answer_existing signal risk none w = refl
  session-answer_existing signal risk (some row) w = ground arith

  changed-place_reserved :
      (signal : SignalCandidate W) (risk : RiskDecision W R) (intent : OrderIntent W)
      (reserved : Bool × Option (OrderRow W)) (w : World W)
      → (place_reserved str_of place signal risk intent reserved w).1.session ≢ w.session
      → reserved.0 ≡ true
  unfolding place_reserved
  changed-place_reserved signal risk intent (true, _) w h = refl
  changed-place_reserved signal risk intent (false, existing) w h =
      absurd (h (session-answer_existing signal risk existing w))

  changed-place_if_reserved :
      (signal : SignalCandidate W) (risk : RiskDecision W R) (intent : OrderIntent W)
      (m : Result Failure (Bool × Option (OrderRow W)) × Database W) (w : World W)
      → (place_if_reserved str_of place signal risk intent m w).1.session ≢ w.session
      → (o : Option (OrderRow W)) × (after : Database W) × (m ≡ (Result.ok (true, o), after))
  unfolding place_if_reserved
  changed-place_if_reserved signal risk intent (Result.ok (true, o), after) w h = (o, after, refl)
  changed-place_if_reserved signal risk intent (Result.ok (false, o), after) w h =
      cc (changed-place_reserved signal risk intent (false, o) (record w { database = after }) h)
  changed-place_if_reserved signal risk intent (Result.raised e, after) w h = absurd (h refl)

  changed-submit_built :
      (signal : SignalCandidate W) (risk : RiskDecision W R)
      (built : Result RouterError (OrderIntent W × Store W)) (w : World W)
      → (submit_built str_of place others signal risk built w).1.session ≢ w.session
      → BuiltNew others built w.database
  unfolding submit_built
  changed-submit_built signal risk (Result.raised e) w h = absurd (h refl)
  changed-submit_built signal risk (Result.ok (intent, store)) w h =
      let (o, after, reserved) =
        changed-place_if_reserved signal risk intent (reserve_order_intent others intent w.database)
          (record w { store = store }) h in
      let (first, second, _, _) = reserved_new others intent w.database reserved in
      (intent, store, refl, first, second)

  place_failed :
      (signal : SignalCandidate W) (risk : RiskDecision W R) (intent : OrderIntent W)
      (session : Session W) (e : Failure) (w : World W)
      → place (payload_fields (bybit_payload intent)) w.session ≡ (Result.raised e, session)
      → place_if_reserved str_of place signal risk intent
          (Result.ok (true, some (new_row intent)), w.database)
          w
        ≡ settle_submission str_of signal intent (Result.raised e, session) w
  unfolding place_if_reserved place_reserved
  place_failed signal risk intent session e w failed = rw failed refl

  -- When the exchange's answer to a new entry order is a failure, its row is not marked for
  -- reconciliation: the trigger on the orders refuses the mark, and the exception of the database
  -- ends the request. The row stays as it was inserted, no incident is noted, and the router's store
  -- stays as the order was built, so the symbol remains locked. The reservation is one that succeeds:
  -- the key is new, and no constraint of the table is against the row.
  pub failed_entry_unmarked :
      (signal : SignalCandidate W) (risk : RiskDecision W R) (intent : OrderIntent W)
      (store : Store W) (e : Failure) (session : Session W) (w : World W)
      → intent.reduce_only ≡ false
      → get_order_by_idempotency intent.idempotency_key w.database ≡ none
      → get_order_by_idempotency intent.idempotency_key (others w.database) ≡ none
      → row_refused (others w.database) (new_row intent) ≡ none
      → clashing intent.idempotency_key (new_row intent) (others w.database).orders ≡ false
      → place (payload_fields (bybit_payload intent)) w.session ≡ (Result.raised e, session)
      → (let p = submit_built str_of place others signal risk (Result.ok (intent, store)) w in
          ((e' : Failure) × (p.0 ≡ Result.raised (RouteError.uncaught_failure e')))
          × (get_order_by_idempotency intent.idempotency_key p.1.database ≡ some (new_row intent))
          × (p.1.database.incidents ≡ (others w.database).incidents)
          × (p.1.store ≡ store))
  unfolding submit_built
  failed_entry_unmarked signal risk intent store e session w entry h k free apart failed =
      let new = inserted others intent w.database h k free apart in
      let stored = stored_row intent (others w.database) in
      let w1 = record w { store = store; database = with_row intent (others w.database) } in
      let (e', answer) =
        failed-settle str_of signal intent e session w1 (new_row intent) stored refl entry in
      let whole = place_failed signal risk intent session e w1 failed ∙ answer in
      (
        (e', rw new (ap (λ p. p.0) whole)),
        rw new (rw whole stored),
        rw new (rw whole refl),
        rw new (rw whole refl),
      )

  module _ (sha256_hex : String → String) (signal_of : Json → Result String (SignalCandidate W))
      (risk_of : Json → Result String (RiskDecision W R)) (verify : RiskDecision W R → List String)
      (now : ℕ) (order_id : String) (has_repository : Bool) where
    -- A request that reaches the exchange: its decision is verified against the database, its
    -- order was built, and no row was stored under the order's key.
    abbrev pub Reaches :
        Option String → Result RouteError (SignalCandidate W × RiskDecision W R) → World W → Type 0
    Reaches key parsed w =
        (signal : SignalCandidate W) × (risk : RiskDecision W R) × (idem : String) × (parsed
          ≡ Result.ok (signal, risk))
        × (key ≡ some idem)
        × (has_repository ≡ true)
        × (is_empty (verify risk) ≡ true)
        × BuiltNew others (build_intent sha256_hex now order_id signal risk idem w.store) w.database

    changed-submit_parsed :
        (key : Option String) (parsed : Result RouteError (SignalCandidate W × RiskDecision W R))
        (w : World W)
        → (submit_parsed str_of place sha256_hex signal_of risk_of verify others now order_id
            has_repository key parsed w).1.session
          ≢ w.session
        → Reaches key parsed w
    unfolding submit_parsed
    changed-submit_parsed key (Result.raised e) w h = absurd (h refl)
    changed-submit_parsed none (Result.ok (signal, risk)) w h = absurd (h refl)
    changed-submit_parsed (some key) (Result.ok (signal, risk)) w h =
        elim (Bool-cases has_repository) [
          | inr missing ↦ absurd (h (rw missing refl))
          | inl there ↦ elim (Bool-cases (is_empty (verify risk))) [
            | inr refused ↦ absurd (h (rw (there, refused) refl))
            | inl verified ↦ (
              signal,
              risk,
              key,
              refl,
              refl,
              there,
              verified,
              changed-submit_built signal risk
                  (build_intent sha256_hex now order_id signal risk key w.store) w
                  (λ e. h (rw (there, verified) e)),
            )
          ]
        ]

    -- The adapter is used by a live submission only if the gate has let it through, the decision of
    -- the request is verified against the database, the router has built the order, and no order
    -- was stored under its key, neither before the reservation nor by another worker during it: so a
    -- repeated key places no second order.
    pub submission_needs_all :
        (gate : Result HttpError Fields) (body : SubmitBody) (w : World W)
        → (live_submit str_of place sha256_hex signal_of risk_of verify others now order_id
            has_repository gate body w).1.session
          ≢ w.session
        → ((passed : Fields) × (gate ≡ Result.ok passed))
          × Reaches (key_of body) (parse_execution_payload signal_of risk_of body) w
    unfolding live_submit
    submission_needs_all (Result.raised e) body w h = absurd (h refl)
    submission_needs_all (Result.ok passed) body w h = (
      (passed, refl),
      changed-submit_parsed (key_of body) (parse_execution_payload signal_of risk_of body) w h,
    )
