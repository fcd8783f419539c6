-- ===== src/OrderApi/Writes.antt =====
-- What a committed transaction of apps/order-api/src/orders/orders.service.ts has written.
use logistics_order_fulfillm.Prelude.{
  String, ◌≡◌, refl, true, false, Bool, ◌==◌, ◌&&◌, Option, none, some, ok, err, if◌then◌else◌,
  Option-cases, Bool-cases, inl, inr, ℕ, Bool, true, false,
}
use logistics_order_fulfillm.Contracts.Topology.{order_status_changed_topic, notify, reserve_stock}
use logistics_order_fulfillm.Contracts.Status.{OrderStatus, placed}
use logistics_order_fulfillm.Contracts.Schema.{event_ok}
use logistics_order_fulfillm.Contracts.RoundTrip.{parse_event-event_json}
use logistics_order_fulfillm.OrderApi.Entities.{
  Platform, OrderRow, Order, CreateOrderDto, kafka, rabbitmq, status_changed, reserve, notification,
  NotifyPayload, OutboxChannel, Payload,
}
use logistics_order_fulfillm.OrderApi.Payloads.{
  status_changed_event, build_status_changed_payload, build_notify_payload,
  build_reserve_stock_payload,
}
use logistics_order_fulfillm.OrderApi.Store.{
  Db, Ambient, Txn, order_fits, ◌>>=◌, insert_order, update_order, insert_outbox, push_outbox,
  with_order, with_row, items_of, schema_error, database_error,
}
use logistics_order_fulfillm.OrderApi.Service.{
  create_order, record_placement, place_in_transaction, write_transition, insert_notify,
}

module _ {N : Type 0} (pf : Platform N) where
  build_lem :
      (now_text : String) (order : Order) (from : Option OrderStatus) (to : OrderStatus)
      → build_status_changed_payload pf now_text order from to ≡ (
          if event_ok pf.js (status_changed_event pf now_text order from to)
          then some (status_changed_event pf now_text order from to)
          else none)
  unfolding build_status_changed_payload
  build_lem now_text order from to = parse_event-event_json pf.js _

  -- the rows of one status change: the event, and what `more` adds
  abbrev pub with_change : Ambient → Order → Option OrderStatus → OrderStatus → Db N → Db N
  with_change amb order from to =
      push_outbox amb.now kafka "order.status_changed" order.id "order.status_changed"
        (status_changed (status_changed_event pf amb.now_text order from to))

  abbrev notify_row : Ambient → Order → Option NotifyPayload → Db N → Db N
  notify_row amb order none db = db
  notify_row amb order (some p) db =
      push_outbox amb.now rabbitmq notify.routing_key order.id "order.notify" (notification p) db

  abbrev pub with_notify : Ambient → Order → OrderStatus → Db N → Db N
  with_notify amb order to db = notify_row amb order (build_notify_payload order to) db

  insert_notify_lem :
      (amb : Ambient) (order : Order) (to : OrderStatus)
      → ◌≡◌ {A = Txn N (Unit {0})}
          (insert_notify amb order to)
          (λ db. ok (tt, with_notify amb order to db))
  unfolding insert_notify insert_outbox
  insert_notify_lem amb order to = elim (Option-cases (build_notify_payload order to)) [
    | inl quiet ↦ rw quiet
    | inr (p, said) ↦ rw said
  ]

  abbrev pub with_reserve : Ambient → Order → Db N → Db N
  with_reserve amb order =
      push_outbox amb.now rabbitmq reserve_stock.routing_key order.id "order.reserve_stock"
        (reserve (build_reserve_stock_payload order))

  -- The database after a placement that commits.
  abbrev pub placed_db : CreateOrderDto N → Ambient → Db N → Db N
  placed_db dto amb db =
      let order = create_order pf dto amb in
      with_notify amb order placed
        (with_reserve amb order (with_change amb order none placed (with_order order db)))

  record_placement_lem :
      (amb : Ambient) (order : Order) (db : Db N)
      → record_placement pf amb order db ≡ (
          if event_ok pf.js (status_changed_event pf amb.now_text order none placed)
          then ok (
            order,
            with_notify amb order placed
                (with_reserve amb order (with_change amb order none placed db)),
          )
          else err schema_error)
  unfolding record_placement insert_outbox
  record_placement_lem amb order db =
      let build = build_lem amb.now_text order none placed in
      elim (Bool-cases (event_ok pf.js (status_changed_event pf amb.now_text order none placed))) [
        | inl good ↦ rw (build, good, insert_notify_lem amb order placed)
        | inr bad ↦ rw (build, bad)
      ]

  -- What a placement does, on each of its branches: a constraint that fails, a payload that the
  -- schema refuses, and the commit.
  pub place_lem :
      (dto : CreateOrderDto N) (amb : Ambient) (db : Db N)
      → let order = create_order pf dto amb in
        place_in_transaction pf dto amb db ≡ (
          if order_fits pf order db
          then (if event_ok pf.js (status_changed_event pf amb.now_text order none placed)
              then ok (order, placed_db dto amb db)
              else err schema_error)
          else err database_error)
  unfolding place_in_transaction insert_order
  place_lem dto amb db =
      let order = create_order pf dto amb in
      elim (Bool-cases (order_fits pf order db)) [
        | inl fits ↦ rw (fits, ◌>>=◌, record_placement_lem amb order (with_order order db))
        | inr full ↦ rw (full, ◌>>=◌)
      ]

  abbrev pub moved : OrderStatus → Ambient → OrderRow → OrderRow
  moved to amb row = record row { status = to; updated_at = amb.now }

  abbrev pub moved_order : OrderStatus → Ambient → OrderRow → Db N → Order
  moved_order to amb row db = record {
    row = moved to amb row;
    items = items_of row.id db.order_items;
  }

  -- The database after a transition that commits.
  abbrev pub moved_db : OrderStatus → Ambient → OrderRow → Db N → Db N
  moved_db to amb row db =
      let order = moved_order to amb row db in
      with_notify amb order to (with_change amb order (some row.status) to (with_row order.row db))

  pub write_transition_lem :
      (to : OrderStatus) (amb : Ambient) (row : OrderRow) (db : Db N)
      → let order = moved_order to amb row db in
        write_transition pf to amb row db ≡ (
          if event_ok pf.js (status_changed_event pf amb.now_text order (some row.status) to)
          then ok (order, moved_db to amb row db)
          else err schema_error)
  unfolding write_transition update_order insert_outbox
  write_transition_lem to amb row db =
      let order = moved_order to amb row db in
      let build = build_lem amb.now_text order (some row.status) to in
      elim (Bool-cases
        (event_ok pf.js (status_changed_event pf amb.now_text order (some row.status) to))) [
          | inl good ↦ rw (build, good, insert_notify_lem amb order to)
          | inr bad ↦ rw (build, bad)
        ]

  -- What the outbox is given: an event that the schema accepts, for its topic, and the two commands,
  -- for their routing keys.
  abbrev pub is_sound : OutboxChannel → String → Payload N → Bool
  is_sound kafka key (status_changed e) = (key == order_status_changed_topic) && event_ok pf.js e
  is_sound kafka key (reserve p) = false
  is_sound kafka key (notification p) = false
  is_sound rabbitmq key (status_changed e) = false
  is_sound rabbitmq key (reserve p) = key == reserve_stock.routing_key
  is_sound rabbitmq key (notification p) = key == notify.routing_key

  -- What every sound insert into the outbox keeps, the writes after that of the order keep.
  module _ (P : Db N → Type 0)
      (pushed : (now : ℕ) (channel : OutboxChannel) (key aggregate type : String) (p : Payload N)
          (db : Db N)
        → is_sound channel key p ≡ true
        → P db
        → P (push_outbox now channel key aggregate type p db)) where
    with_notify-keeps :
        (amb : Ambient) (order : Order) (to : OrderStatus) (db : Db N)
        → P db
        → P (with_notify amb order to db)
    with_notify-keeps amb order to db h = elim (Option-cases (build_notify_payload order to)) [
      | inl quiet ↦ rw quiet h
      | inr (p, said) ↦ rw said (pushed _ rabbitmq _ _ _ (notification p) db refl h)
    ]

    pub placed_db-keeps :
        (dto : CreateOrderDto N) (amb : Ambient) (db : Db N)
        → event_ok pf.js
            (status_changed_event pf amb.now_text (create_order pf dto amb) none placed)
          ≡ true
        → P (with_order (create_order pf dto amb) db)
        → P (placed_db dto amb db)
    placed_db-keeps dto amb db good h = with_notify-keeps amb (create_order pf dto amb) placed _ (
        pushed _ rabbitmq _ _ _ (reserve (build_reserve_stock_payload (create_order pf dto amb))) _
          refl (pushed _ _ _ _ _ _ _ good h))

    pub moved_db-keeps :
        (to : OrderStatus) (amb : Ambient) (row : OrderRow) (db : Db N)
        → event_ok pf.js
            (status_changed_event pf amb.now_text (moved_order to amb row db) (some row.status) to)
          ≡ true
        → P (with_row (moved to amb row) db)
        → P (moved_db to amb row db)
    moved_db-keeps to amb row db good h =
        with_notify-keeps amb (moved_order to amb row db) to _ (pushed _ _ _ _ _ _ _ good h)
