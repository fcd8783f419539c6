-- ===== src/OrderApi/Outcomes.antt =====
-- What the caller of `placeOrder` and `transition` learns, against what has been stored
-- (apps/order-api/src/orders/orders.service.ts).
use logistics_order_fulfillm.Prelude.{
  String, ◌≡◌, ◌≢◌, refl, Bool, Bool-cases, true, false, Option, none, some, Result, ok, err,
  if◌then◌else◌, ◌==◌, [], ◌∷◌, ◌++◌, arith, Option-cases, inl, inr, ap, ◌∙◌,
}
use logistics_order_fulfillm.Prelude.Table
use logistics_order_fulfillm.Contracts.Status.{OrderStatus, placed}
use logistics_order_fulfillm.OrderApi.StateMachine.{can_transition}
use logistics_order_fulfillm.OrderApi.Entities.{
  Platform, OrderRow, Order, CreateOrderDto, Job, PaymentTimeoutJobData,
}
use logistics_order_fulfillm.OrderApi.Store.{
  Db, State, order_fits, Ambient, Txn, OrderError, not_found, invalid_transition, queue_error,
  settle, transaction,
}
use logistics_order_fulfillm.Contracts.Schema.{event_ok}
use logistics_order_fulfillm.OrderApi.Payloads.{status_changed_event}
use logistics_order_fulfillm.OrderApi.Writes.{
  moved_order, moved_db, write_transition_lem, placed_db, place_lem,
}
use logistics_order_fulfillm.OrderApi.Consistency.{
  orders-moved_db, items-moved_db, orders-placed_db, items-placed_db, history-placed_db,
}
use logistics_order_fulfillm.OrderApi.History.{history}
use logistics_order_fulfillm.OrderApi.System.{db-enqueue_after, db-enqueue_payment_timeout}
use logistics_order_fulfillm.OrderApi.Service.{
  place_in_transaction, place_order, transition_row, transition_in_transaction, transition,
  enqueue_payment_timeout, enqueue_after, create_order, payment_timeout_ms,
}

-- The job that is due for a new order.
abbrev pub timeout_of : Order → Job PaymentTimeoutJobData
timeout_of order = record {
  body = record { trace_id = order.trace_id; order_id = order.id };
  delay = payment_timeout_ms;
}

module _ {N : Type 0} (pf : Platform N) where
  transaction-err :
      {A : Type 0} (fails : Bool) (body : Txn N A) (db : Db N) (e : OrderError)
      → (transaction fails body db).0 ≡ err e
      → (transaction fails body db).1 ≡ db
  unfolding transaction
  transaction-err true body db e h = refl
  transaction-err {A} false body db e h = go (body db) h
    where
      go : (r : Result OrderError (A × Db N)) → (settle db r).0 ≡ err e → (settle db r).1 ≡ db
      go (ok x) h = ground arith
      go (err x) h = refl

  enqueue_payment_timeout-err :
      (amb : Ambient) (r : Result OrderError Order × Db N) (s : State N) (e : OrderError)
      → (enqueue_payment_timeout pf amb r s).0 ≡ err e
      → e ≢ queue_error
      → (r.0 ≡ err e) × ((enqueue_payment_timeout pf amb r s).1 ≡ record s { db = r.1 })
  unfolding enqueue_payment_timeout
  enqueue_payment_timeout-err amb (ok order, db) s e h n = ground arith
  enqueue_payment_timeout-err amb (err x, db) s e h n = (h, refl)

  enqueue_after-err :
      (to : OrderStatus) (amb : Ambient) (r : Result OrderError Order × Db N) (s : State N)
      (e : OrderError)
      → (enqueue_after pf to amb r s).0 ≡ err e
      → e ≢ queue_error
      → (r.0 ≡ err e) × ((enqueue_after pf to amb r s).1 ≡ record s { db = r.1 })
  unfolding enqueue_after
  enqueue_after-err to amb (ok order, db) s e h n = ground arith
  enqueue_after-err to amb (err x, db) s e h n = (h, refl)

  -- A placement that fails with another error than that of the job queue has changed nothing.
  pub place_order-atomic :
      (dto : CreateOrderDto N) (amb : Ambient) (s : State N) (e : OrderError)
      → (place_order pf dto amb s).0 ≡ err e
      → e ≢ queue_error
      → (place_order pf dto amb s).1 ≡ s
  unfolding place_order
  place_order-atomic dto amb s e h n =
      let body = place_in_transaction pf dto amb in
      let r = transaction amb.database_fails body s.db in
      let (failed, kept) = enqueue_payment_timeout-err amb r s e h n in
      kept ∙ ap (λ d. record s { db = d }) (transaction-err amb.database_fails body s.db e failed)

  -- A transition that fails with another error than that of the job queue has changed nothing.
  pub transition-atomic :
      (id : String) (to : OrderStatus) (amb : Ambient) (s : State N) (e : OrderError)
      → (transition pf id to amb s).0 ≡ err e
      → e ≢ queue_error
      → (transition pf id to amb s).1 ≡ s
  unfolding transition
  transition-atomic id to amb s e h n =
      let body = transition_in_transaction pf id to amb in
      let r = transaction amb.database_fails body s.db in
      let (failed, kept) = enqueue_after-err to amb r s e h n in
      kept ∙ ap (λ d. record s { db = d }) (transaction-err amb.database_fails body s.db e failed)

  -- What the guards of `transition` throw, if they throw.
  abbrev pub refusal : String → OrderStatus → Option OrderRow → Option OrderError
  refusal id to none = some (not_found id)
  refusal id to (some row) =
      if can_transition row.status to then none else some (invalid_transition row.status to)

  -- With a database that answers, a transition of an order that does not exist, or that the state
  -- machine does not allow, has the error of that guard and changes nothing.
  pub transition-refused :
      (id : String) (to : OrderStatus) (amb : Ambient) (s : State N) (e : OrderError)
      → amb.database_fails ≡ false
      → refusal id to (Table.find (λ row. row.id) id s.orders) ≡ some e
      → transition pf id to amb s ≡ (err e, s)
  unfolding transition transition_row transaction
  transition-refused id to amb s e up refused =
      elim (Option-cases (Table.find (λ row. row.id) id s.orders)) [
        | inl missing ↦ rw (up, missing) (ground arith)
        | inr (row, found) ↦ rw (up, found) (ground arith)
      ]

  transition_db :
      (id : String) (to : OrderStatus) (amb : Ambient) (s : State N) (row : OrderRow)
      → amb.database_fails ≡ false
      → Table.find (λ r. r.id) id s.orders ≡ some row
      → can_transition row.status to ≡ true
      → event_ok pf.js (
          status_changed_event pf amb.now_text
            (moved_order pf to amb row s.db)
            (some row.status)
            to)
        ≡ true
      → (transition pf id to amb s).1.db ≡ moved_db pf to amb row s.db
  unfolding transition transition_row transaction
  transition_db id to amb s row up found legal good =
      let run = transaction amb.database_fails (transition_in_transaction pf id to amb) s.db in
      ◌∙◌ {b = run.1} (db-enqueue_after pf to amb run s)
        (simp (up, found, legal, write_transition_lem, good))

  -- With a database that answers, a transition that the state machine allows, whose event the
  -- schema accepts, sets the status and the update time of that order's row, leaves every other
  -- row, and keeps the items.
  pub transition-accepted :
      (id : String) (to : OrderStatus) (amb : Ambient) (s : State N) (row : OrderRow)
      → amb.database_fails ≡ false
      → Table.find (λ r. r.id) id s.orders ≡ some row
      → can_transition row.status to ≡ true
      → event_ok pf.js (
          status_changed_event pf amb.now_text
            (moved_order pf to amb row s.db)
            (some row.status)
            to)
        ≡ true
      → let s' = (transition pf id to amb s).1 in
        ((j : String)
          → Table.find (λ r. r.id) j s'.orders ≡ (
              if id == j
              then some (record row { status = to; updated_at = amb.now })
              else Table.find (λ r. r.id) j s.orders))
        × (s'.order_items ≡ s.order_items)
  transition-accepted id to amb s row up found legal good =
      let e = transition_db id to amb s row up found legal good in
      (
        λ j.
            rw (e, orders-moved_db, Table.find-save)
              (rw (Table.key-find (λ (r : OrderRow). r.id) id row s.orders found)),
        rw (e, items-moved_db),
      )

  place_order_db :
      (dto : CreateOrderDto N) (amb : Ambient) (s : State N)
      → amb.database_fails ≡ false
      → order_fits pf (create_order pf dto amb) s.db ≡ true
      → event_ok pf.js (status_changed_event pf amb.now_text (create_order pf dto amb) none placed)
        ≡ true
      → place_order pf dto amb s
        ≡ enqueue_payment_timeout pf amb (ok (create_order pf dto amb), placed_db pf dto amb s.db) s
  unfolding place_order transaction
  place_order_db dto amb s up fits good = simp (up, place_lem, fits, good)

  enqueue_payment_timeout-ok :
      (amb : Ambient) (order : Order) (db : Db N) (s : State N)
      → let r = enqueue_payment_timeout pf amb (ok order, db) s in
        (r.0 ≡ (if amb.redis_fails then err queue_error else ok order))
        × (r.1.payment_timeout_queue ≡ (
            if amb.redis_fails
            then s.payment_timeout_queue
            else s.payment_timeout_queue ++ timeout_of order ∷ []))
  unfolding enqueue_payment_timeout
  enqueue_payment_timeout-ok amb order db s = elim (Bool-cases amb.redis_fails) [
    | inl down ↦ rw down (refl, refl)
    | inr alive ↦ rw alive (refl, refl)
  ]

  -- With a database that answers, a placement whose order the constraints of the tables take and
  -- whose event the schema accepts stores the order's row and its items, leaves every other order,
  -- and adds the change to PLACED to the order's history in the outbox, whether Redis fails or
  -- not; if Redis fails, the caller gets the queue's error and the queue of payment timeouts is as
  -- it was, and else the caller gets the order and the queue gets its timeout.
  pub place_order-lost_timeout :
      (dto : CreateOrderDto N) (amb : Ambient) (s : State N)
      → amb.database_fails ≡ false
      → order_fits pf (create_order pf dto amb) s.db ≡ true
      → event_ok pf.js (status_changed_event pf amb.now_text (create_order pf dto amb) none placed)
        ≡ true
      → let r = place_order pf dto amb s in
        let order = create_order pf dto amb in
        (r.0 ≡ (if amb.redis_fails then err queue_error else ok order))
        × ((j : String)
            → Table.find (λ row. row.id) j r.1.orders
              ≡ (if order.id == j then some order.row else Table.find (λ row. row.id) j s.orders))
        × (r.1.order_items ≡ s.order_items ++ order.items)
        × (history order.id r.1.outbox ≡ history order.id s.outbox ++ (none, placed) ∷ [])
        × (r.1.payment_timeout_queue ≡ (
            if amb.redis_fails
            then s.payment_timeout_queue
            else s.payment_timeout_queue ++ timeout_of order ∷ []))
  place_order-lost_timeout dto amb s up fits good =
      let e = place_order_db dto amb s up fits good in
      let order = create_order pf dto amb in
      let db' = placed_db pf dto amb s.db in
      let answer = enqueue_payment_timeout-ok amb order db' s in
      let stored = db-enqueue_payment_timeout pf amb (ok order, db') s in
      (
        rw e answer.0,
        λ j. rw (e, stored, orders-placed_db, Table.find-save) refl,
        rw (e, stored, items-placed_db) refl,
        rw (e, stored) (history-placed_db pf dto amb s.db),
        rw e answer.1,
      )
