-- ===== src/OrderApi/Service.antt =====
-- apps/order-api/src/orders/orders.service.ts
use logistics_order_fulfillm.Prelude.{
  ℕ, ◌+◌, ◌-◌, ◌*◌, String, Option, none, some, List, [], ◌∷◌, ◌++◌, Result, ok, err, if◌then◌else◌,
}
use mathlib.Core.List.{foldl}
use logistics_order_fulfillm.Prelude.Table
use logistics_order_fulfillm.Contracts.Status.{
  OrderStatus, placed, payment_confirmed, shipped, same,
}
use logistics_order_fulfillm.Contracts.Topology.{notify, reserve_stock}
use logistics_order_fulfillm.OrderApi.StateMachine.{can_transition}
use logistics_order_fulfillm.OrderApi.Entities.{
  Platform, OrderItem, OrderRow, Order, kafka, rabbitmq, NotifyPayload, status_changed, reserve,
  notification, CreateOrderItemDto, CreateOrderDto,
}
use logistics_order_fulfillm.OrderApi.Payloads.{
  build_status_changed_payload, build_reserve_stock_payload, build_notify_payload,
}
use logistics_order_fulfillm.OrderApi.Store.{
  Db, State, OrderError, not_found, invalid_transition, schema_error, queue_error, Ambient, Txn,
  pure, ◌>>=◌, ◌>>◌, transaction, items_of, insert_order, update_order, insert_outbox,
}

abbrev pub payment_timeout_ms : ℕ
payment_timeout_ms = 15 * 60 * 1000

abbrev pub assumed_delivery_days : ℕ
assumed_delivery_days = 3

abbrev pub delivery_reminder_delay_ms : ℕ
delivery_reminder_delay_ms = assumed_delivery_days * 24 * 60 * 60 * 1000 - 60 * 60 * 1000

-- A parse that throws a ZodError inside a transaction.
abbrev pub parsed : {N A : Type 0} → Option A → Txn N A
parsed none db = err schema_error
parsed (some a) db = ok (a, db)

-- The outbox row of a status change, with the payload that the schema accepted.
insert_status_changed :
    {N : Type 0}
    → Platform N
    → Ambient
    → Order
    → Option OrderStatus
    → OrderStatus
    → Txn N (Unit {0})
insert_status_changed pf amb order previous_status new_status = do
  payload ← parsed (build_status_changed_payload pf amb.now_text order previous_status new_status)
  insert_outbox amb.now kafka "order.status_changed" order.id "order.status_changed"
      (status_changed payload)

insert_notify_payload : {N : Type 0} → Ambient → Order → Option NotifyPayload → Txn N (Unit {0})
insert_notify_payload amb order none = pure tt
insert_notify_payload amb order (some payload) =
    insert_outbox amb.now rabbitmq notify.routing_key order.id "order.notify" (notification payload)

-- `if (notifyPayload) …`
unfoldable pub insert_notify : {N : Type 0} → Ambient → Order → OrderStatus → Txn N (Unit {0})
unfolding insert_notify_payload
insert_notify amb order status = insert_notify_payload amb order (build_notify_payload order status)

module _ {N : Type 0} (pf : Platform N) where
  unfoldable pub total : List (CreateOrderItemDto N) → N
  total items =
      foldl (λ sum item. pf.add sum (pf.mul (pf.of_nat item.qty) item.unit_price)) pf.zero items

  -- `dto.items.map`, with the uuids that the table gives the rows
  unfoldable pub create_items : Ambient → ℕ → List (CreateOrderItemDto N) → List OrderItem
  create_items amb i [] = []
  create_items amb i (item ∷ items) =
      record {
        id = amb.item_uuid i;
        order_id = amb.order_uuid;
        sku = item.sku;
        qty = item.qty;
        unit_price = pf.to_fixed item.unit_price;
      }
      ∷ create_items amb (i + 1) items

  -- `manager.create(Order, …)`
  unfoldable pub create_order : CreateOrderDto N → Ambient → Order
  unfolding total create_items
  create_order dto amb = record {
    row = record {
      id = amb.order_uuid;
      customer_id = dto.customer_id;
      status = placed;
      delivery_address = dto.delivery_address;
      branch_id = dto.branch_id;
      total_value = pf.to_fixed (total dto.items);
      trace_id = amb.trace_uuid;
      created_at = amb.now;
      updated_at = amb.now;
    };
    items = create_items amb 0 dto.items;
  }

  -- The outbox rows of a placement, in the transaction that inserts the order.
  unfoldable pub record_placement : Ambient → Order → Txn N Order
  unfolding insert_status_changed
  record_placement amb order = do
    insert_status_changed pf amb order none placed
    insert_outbox amb.now rabbitmq reserve_stock.routing_key order.id "order.reserve_stock"
        (reserve (build_reserve_stock_payload order))
    insert_notify amb order placed
    pure order

  -- The body of the transaction of `placeOrder`.
  unfoldable pub place_in_transaction : CreateOrderDto N → Ambient → Txn N Order
  place_in_transaction dto amb = do
    let order = create_order dto amb
    insert_order pf order
    record_placement amb order

  -- `paymentTimeoutQueue.add` after the commit; if Redis fails, the request fails and the order
  -- stays.
  unfoldable pub enqueue_payment_timeout :
      Ambient → Result OrderError Order × Db N → State N → Result OrderError Order × State N
  enqueue_payment_timeout amb (err e, db) s = (err e, record s { db = db })
  enqueue_payment_timeout amb (ok order, db) s =
      if amb.redis_fails then (err queue_error, record s { db = db }) else (
        ok order,
        record s {
          db = db;
          payment_timeout_queue =
              s.payment_timeout_queue
              ++ record {
                body = record { trace_id = order.trace_id; order_id = order.id };
                delay = payment_timeout_ms;
              }
                ∷ [];
        },
      )

  unfoldable pub place_order :
      CreateOrderDto N → Ambient → State N → Result OrderError Order × State N
  unfolding enqueue_payment_timeout
  place_order dto amb s =
      enqueue_payment_timeout amb
        (transaction amb.database_fails (place_in_transaction dto amb) s.db) s

  -- The writes of `transition`, once its guards have passed.
  unfoldable pub write_transition : OrderStatus → Ambient → OrderRow → Txn N Order
  unfolding insert_status_changed
  write_transition to amb locked db =
      let row = record locked { status = to; updated_at = amb.now } in
      let order : Order = record { row = row; items = items_of locked.id db.order_items } in
      let write : Txn N Order = (do
        update_order row
        insert_status_changed pf amb order (some locked.status) to
        insert_notify amb order to
        pure order) in
      write db

  -- The guards of `transition`, on the row that was locked.
  unfoldable pub transition_row : String → OrderStatus → Ambient → Option OrderRow → Txn N Order
  transition_row id to amb none db = err (not_found id)
  transition_row id to amb (some locked) db =
      if can_transition locked.status to
      then write_transition to amb locked db
      else err (invalid_transition locked.status to)

  -- The body of the transaction of `transition`: the order's row, then its items.
  unfoldable pub transition_in_transaction : String → OrderStatus → Ambient → Txn N Order
  unfolding transition_row
  transition_in_transaction id to amb db =
      transition_row id to amb (Table.find (λ row. row.id) id db.orders) db

  -- What is enqueued once the transition is committed.
  unfoldable pub enqueue_after :
      OrderStatus
      → Ambient
      → Result OrderError Order × Db N
      → State N
      → Result OrderError Order × State N
  enqueue_after to amb (err e, db) s = (err e, record s { db = db })
  enqueue_after to amb (ok order, db) s =
      if same to shipped
      then (if amb.redis_fails then (err queue_error, record s { db = db }) else (
        ok order,
        record s {
          db = db;
          delivery_reminder_queue =
              s.delivery_reminder_queue
              ++ record {
                body = record {
                  trace_id = order.trace_id;
                  order_id = order.id;
                  customer_id = order.customer_id;
                };
                delay = delivery_reminder_delay_ms;
              }
                ∷ [];
        },
      ))
      else if same to payment_confirmed
      then (if amb.redis_fails then (err queue_error, record s { db = db }) else (
        ok order,
        record s {
          db = db;
          generate_invoice_queue =
              s.generate_invoice_queue
              ++ record {
                body = record { trace_id = order.trace_id; order_id = order.id };
                delay = 0;
              }
                ∷ [];
        },
      ))
      else (ok order, record s { db = db })

  unfoldable pub transition :
      String → OrderStatus → Ambient → State N → Result OrderError Order × State N
  unfolding transition_in_transaction enqueue_after
  transition id to amb s =
      enqueue_after to amb
        (transaction amb.database_fails (transition_in_transaction id to amb) s.db) s

-- `findOne`
with_items : {N : Type 0} → String → Db N → Option OrderRow → Result OrderError Order
with_items id db none = err (not_found id)
with_items id db (some row) = ok (record { row = row; items = items_of id db.order_items })

unfoldable pub find_one : {N : Type 0} → String → Db N → Result OrderError Order
unfolding with_items
find_one id db = with_items id db (Table.find (λ row. row.id) id db.orders)
