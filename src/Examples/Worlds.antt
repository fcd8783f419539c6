-- ===== src/Examples/Worlds.antt =====
-- The services together at a concrete run: an order is placed, announced, reserved, cancelled and
-- released.
use logistics_order_fulfillm.Composition.Drained.{rest_of_poll}
use logistics_order_fulfillm.Composition.Routed.{Reach-Routed, Routed}
use logistics_order_fulfillm.OrderApi.Drain.{pending, polls}
use logistics_order_fulfillm.Prelude.Unique.{insert_or_ignore, holds}
use logistics_order_fulfillm.Composition.Announced.{announced}
use logistics_order_fulfillm.EventLogs.Audit.{log_of, record_event}
use logistics_order_fulfillm.Inventory.Entities.{release, released}
use logistics_order_fulfillm.OrderApi.History.{changes, replay, history}
use logistics_order_fulfillm.Inventory.EventConsumer.{settlement_for}
use logistics_order_fulfillm.Inventory.Service.{
  of_order, available_or_zero, settle_row, settle_rows, settle_step, take_item, take_items,
  unavailable, settle_reservation, reserve_stock,
}
use logistics_order_fulfillm.OrderApi.StateMachine.{can_transition, includes, transitions}
use logistics_order_fulfillm.Contracts.Json.{get}
use logistics_order_fulfillm.OrderApi.Payloads.{
  build_status_changed_payload, status_changed_event, build_notify_payload,
  build_reserve_stock_payload, event_item, notify_type_by_status,
}
use logistics_order_fulfillm.OrderApi.Store.{
  transaction, insert_order, order_fits, insert_outbox, items_of, push_outbox, update_order,
  with_order, with_row,
}
use logistics_order_fulfillm.OrderApi.Service.{
  transition, place_order, place_in_transaction, create_order, record_placement, create_items,
  enqueue_after, enqueue_payment_timeout, insert_notify, total, transition_in_transaction,
  transition_row, write_transition,
}
use Prim.Native.Nat.{zero}
use logistics_order_fulfillm.Contracts.Schema.{
  OrderStatusChangedEvent, parse_event, event_json, as_status_or_null, as_array, as_fields, as_int,
  as_nonneg, as_number, as_positive_int, as_status, as_text, item_json, items_json, parse_item,
  parse_items, parse_metadata, status_json,
}
use logistics_order_fulfillm.OrderApi.Writes.{is_sound}
use logistics_order_fulfillm.Composition.Drained.{rest_of_poll, Reach-handed_over}
use logistics_order_fulfillm.OrderApi.Drain.{polls, pending}
use logistics_order_fulfillm.Prelude.{
  ℕ, ◌≡◌, refl, true, false, List, [], ◌∷◌, All, some, suc, get_elem?, arith, decimal, map, length,
}
use logistics_order_fulfillm.Prelude.Table.{find, save}
use logistics_order_fulfillm.Contracts.Status.{of_text, text}
use logistics_order_fulfillm.OrderApi.Poller.{
  delivered, is_pending, message, publish_entry, pending_batch, Message, to_exchange, oldest_first,
  insert_oldest, mark_published, payload_key, to_topic,
}
use logistics_order_fulfillm.OrderApi.Entities.{ReserveStockPayload, reserve, status_changed}
use logistics_order_fulfillm.OrderApi.System.{perform}
use logistics_order_fulfillm.OrderApi.Consistency.{status_of}
use logistics_order_fulfillm.Composition.World.{
  IsAmong, log, World, Reach, later, settle, take, publish_one, read_input,
}
use logistics_order_fulfillm.Composition.Safety.{agrees, IsQuiet, Reach-agrees, Reach-logged}
use logistics_order_fulfillm.Composition.Delivered.{Reach-sent}
use logistics_order_fulfillm.Examples.Runs.{
  idle, polling, announced_world, publish_next, try_next, drained, announced-Reach, audit-drained,
  polling-Reach,
}
use logistics_order_fulfillm.Examples.Samples.{platform, shelf, cancellation, uuid, naturals}

at : (i : ℕ) (sent : List (Message ℕ)) (m : Message ℕ) → get_elem? sent i ≡ some m → IsAmong m sent
at i [] m e = absurd (ground arith)
at zero (n ∷ sent) m e = ([], sent, ground arith)
at (suc i) (n ∷ sent) m e =
    let (before, after, split) = at i sent m e in (n ∷ before, after, rw split)

abbrev reserve_payload : ReserveStockPayload
reserve_payload = record {
  trace_id = "trace-1";
  order_id = "order-1";
  items = record { sku = "A"; qty = 2 } ∷ [];
}

abbrev cancelled_event : OrderStatusChangedEvent ℕ
cancelled_event = record cancellation {
  order_value = 7;
  items = record { sku = "A"; qty = 2; unit_price = 7 } ∷ [];
}

-- What the brokers got: the stock that is to be reserved, and the cancellation, which reads back.
handed_over :
    (get_elem? announced_world.sent 1
      ≡ some (to_exchange "order.direct" "reserve_stock" (reserve reserve_payload)))
    × (get_elem? announced_world.sent 3
        ≡ some (to_topic "order.status_changed" "order-1" (status_changed cancelled_event)))
    × (parse_event naturals (event_json cancelled_event) ≡ some cancelled_event)
unfolding drained try_next publish_next publish_one perform pending_batch oldest_first transition
    transaction find place_order place_in_transaction insert_order order_fits create_order
    record_placement build_status_changed_payload parse_event event_json as_status_or_null
    status_changed_event of_text get as_array as_fields as_int as_nonneg as_number as_positive_int
    as_status as_text item_json items_json parse_item parse_items parse_metadata status_json text
    build_notify_payload build_reserve_stock_payload event_item notify_type_by_status insert_oldest
    is_pending mark_published message payload_key publish_entry create_items enqueue_after
    enqueue_payment_timeout insert_notify total transition_in_transaction transition_row
    write_transition can_transition includes transitions insert_outbox items_of push_outbox
    update_order with_order with_row decimal save
handed_over = (refl, refl, refl)

abbrev taken : World ℕ
taken = record announced_world {
  inventory = (reserve_stock (read_input reserve_payload) uuid false announced_world.inventory).1;
}

abbrev returned : World ℕ
returned = record taken {
  inventory = (settle_reservation cancelled_event.order_id release false taken.inventory).1;
}

taken-Reach : Reach platform idle taken
taken-Reach = later announced-Reach (
    take "order.direct" "reserve_stock" reserve_payload uuid false (
      at 1 announced_world.sent
        (to_exchange "order.direct" "reserve_stock" (reserve reserve_payload)) handed_over.0))

returned-Reach : Reach platform idle returned
unfolding settlement_for
returned-Reach = later taken-Reach (
    settle "order.status_changed" "order-1" cancelled_event cancelled_event release false
      (at 3 announced_world.sent
        (to_topic "order.status_changed" "order-1" (status_changed cancelled_event)) handed_over.1)
      handed_over.2 refl)

idle-IsQuiet : IsQuiet idle
unfolding find changes replay history
idle-IsQuiet = record {
  consistent = λ id. refl;
  no_batch = refl;
  nothing_sent = refl;
  nothing_reserved = refl;
  nothing_logged = refl;
}

Reach-agrees_example :
    All
      (λ r.
        agrees (status_of (find (λ row. row.id) r.order_id returned.api.orders)) r.status ≡ true)
      returned.inventory.reservations
Reach-agrees_example = Reach-agrees platform idle returned idle-IsQuiet returned-Reach

-- What those two deliveries do to the goods.
released_goods :
    map
      (λ r. r.status)
      (settle_reservation "order-1" release false
        (reserve_stock (read_input reserve_payload) uuid false shelf).1).1.reservations
    ≡ released ∷ []
unfolding reserve_stock settle_reservation read_input of_order available_or_zero settle_row
    settle_rows settle_step take_item take_items unavailable find save
released_goods = refl

Reach-sent_example :
    All
      (λ e. is_pending e ≡ false → IsAmong (message e) announced_world.sent)
      announced_world.api.outbox
Reach-sent_example = Reach-sent platform idle announced_world refl refl announced-Reach

-- The cancellation is logged as well.
abbrev logged_world : World ℕ
logged_world = record announced_world { audit = log_of naturals (λ s. 0) cancelled_event ∷ [] }

logged-Reach : Reach platform idle logged_world
unfolding record_event insert_or_ignore holds
logged-Reach = later announced-Reach (
    log "order.status_changed" "order-1" cancelled_event cancelled_event (λ s. 0) (λ row. true)
      logged_world.audit
      (at 3 announced_world.sent
        (to_topic "order.status_changed" "order-1" (status_changed cancelled_event)) handed_over.1)
      handed_over.2 (rw (audit-drained 5 polling) refl))

Reach-logged_example :
    All
      (λ row. announced row.order_id row.new_status logged_world.api.outbox ≡ true)
      logged_world.audit
Reach-logged_example = Reach-logged platform idle logged_world idle-IsQuiet logged-Reach

-- The poll has its batch and has tried none of it.
few_pending : length (pending polling.api.outbox) ≡ 5
unfolding perform transition transaction find place_order place_in_transaction insert_order
    order_fits create_order record_placement build_status_changed_payload parse_event event_json
    as_status_or_null status_changed_event of_text get as_array as_fields as_int as_nonneg as_number
    as_positive_int as_status as_text item_json items_json parse_item parse_items parse_metadata
    status_json text build_notify_payload build_reserve_stock_payload event_item
    notify_type_by_status is_pending create_items enqueue_after enqueue_payment_timeout
    insert_notify total transition_in_transaction transition_row write_transition can_transition
    includes transitions insert_outbox items_of push_outbox update_order with_order with_row decimal
    save
few_pending = refl

Reach-handed_over_example :
    let p = polls 300 (λ e. delivered) 1 (rest_of_poll platform 300 (λ e. delivered) polling) in
    (pending p.outbox ≡ [])
    × All (λ e. IsAmong (message e) p.sent) p.outbox
    × All (λ e. is_sound platform e.channel e.routing_key e.payload ≡ true) p.outbox
Reach-handed_over_example =
    Reach-handed_over platform 300 (λ e. delivered) 1 idle polling refl refl polling-Reach
      (λ e. refl) (omega (arith, few_pending))

Reach-Routed_example : All (Routed platform) announced_world.sent
Reach-Routed_example = Reach-Routed platform idle announced_world refl refl refl announced-Reach
