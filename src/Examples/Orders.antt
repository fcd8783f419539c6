-- ===== src/Examples/Orders.antt =====
-- The order API at concrete inputs.
use logistics_order_fulfillm.Prelude.{
  ℕ, ◌≡◌, refl, String, true, false, List, [], ◌∷◌, ◌++◌, map, keep, none, some, Result, err, arith,
  ◌==◌, eqb, if◌then◌else◌, ◌↔◌,
}
use logistics_order_fulfillm.Prelude.Table.{find}
use logistics_order_fulfillm.Contracts.Status.{placed, payment_confirmed, picking, cancelled}
use logistics_order_fulfillm.Contracts.Delivery.{
  ConsumeMessage, ack, IsSettled, insufficient_stock, StockReservationResult,
}
use logistics_order_fulfillm.Contracts.Status.{text}
use logistics_order_fulfillm.OrderApi.Http.{
  HttpRequest, change, ErrorBody, failed, is_valid, respond_to, run, respond, catch,
}
use logistics_order_fulfillm.OrderApi.Answers.{respond_to-failed}
use logistics_order_fulfillm.OrderApi.StateMachine.{can_transition}
use logistics_order_fulfillm.OrderApi.Lifecycle.{Next, IsPath, can_transition_iff}
use logistics_order_fulfillm.OrderApi.Entities.{
  Order, OrderRow, OutboxEntry, rabbitmq, reserve, notification,
}
use logistics_order_fulfillm.OrderApi.Store
use logistics_order_fulfillm.Contracts.Schema.{event_ok}
use logistics_order_fulfillm.OrderApi.Payloads.{status_changed_event}
use logistics_order_fulfillm.OrderApi.Writes.{moved_order}
use logistics_order_fulfillm.OrderApi.Store.{
  OrderError, State, Db, not_found, invalid_transition, queue_error, transaction, order_fits,
}
use logistics_order_fulfillm.OrderApi.Service.{
  create_order, place_in_transaction, place_order, transition,
}
use logistics_order_fulfillm.OrderApi.History.{history, changes, replay}
use logistics_order_fulfillm.OrderApi.Consistency.{IsConsistent}
use logistics_order_fulfillm.OrderApi.System.{serve, serve-IsConsistent}
use logistics_order_fulfillm.OrderApi.Dedupe.{AreDistinct, new_statuses, serve-AreDistinct}
use logistics_order_fulfillm.OrderApi.Outcomes.{
  transition-refused, transition-accepted, place_order-lost_timeout,
}
use logistics_order_fulfillm.OrderApi.Poller.{
  Attempt, delivered, refused, PollerState, message, is_pending, publish_all,
}
use logistics_order_fulfillm.OrderApi.Drain.{pending, HasKeys, polls, pending-polls}
use logistics_order_fulfillm.OrderApi.Faults.{settled, is_sent, publish_all_lem}
use logistics_order_fulfillm.OrderApi.ReplyQueue.{ReplyBody, malformed, payload, handle}
use logistics_order_fulfillm.OrderApi.Cancellation.{handle-stale, handle-IsSettled}
use logistics_order_fulfillm.Examples.Samples.{
  naturals, platform, now, without_redis, dto, no_orders, requests, placed_row, one_order,
  paid_order,
}

no_orders-IsConsistent : IsConsistent no_orders.db
unfolding find changes replay history
no_orders-IsConsistent id = refl

serve-IsConsistent_example : IsConsistent (serve platform requests no_orders).db
serve-IsConsistent_example = serve-IsConsistent platform requests no_orders no_orders-IsConsistent

serve-AreDistinct_example :
    AreDistinct (new_statuses (history "order-1" (serve platform requests no_orders).outbox))
serve-AreDistinct_example =
    serve-AreDistinct platform requests no_orders no_orders-IsConsistent "order-1"

can_transition_iff_example : (can_transition placed cancelled ≡ true) ↔ Next placed cancelled
can_transition_iff_example = can_transition_iff placed cancelled

paid_and_picked : IsPath placed (payment_confirmed ∷ picking ∷ []) picking
unfolding can_transition
paid_and_picked = (refl, (refl, refl))

-- a second cancellation of a paid order
transition-refused_example :
    transition platform "order-1" cancelled now paid_order
    ≡ (err (invalid_transition payment_confirmed cancelled), paid_order)
unfolding find can_transition
transition-refused_example =
    transition-refused platform "order-1" cancelled now paid_order
      (invalid_transition payment_confirmed cancelled) refl refl

abbrev short : StockReservationResult
short = record { trace_id = "trace-1"; order_id = "order-1"; status = insufficient_stock [] }

abbrev parse : String → ReplyBody
parse s = if s == "short" then payload short else malformed

-- PostgreSQL refuses an id that is no uuid.
abbrev no_uuid : Store.Ambient → State ℕ → Result OrderError Order × State ℕ
no_uuid amb s = (err Store.database_error, s)

abbrev message_short : ConsumeMessage
message_short = record { content = "short"; x_death = none }

handle-stale_example :
    handle parse platform no_uuid (some message_short) now paid_order
    ≡ record { state = paid_order; actions = ack ∷ []; uncaught = false }
unfolding find
handle-stale_example =
    handle-stale platform parse no_uuid message_short short [] now paid_order
      (record placed_row { status = payment_confirmed }) refl refl refl refl (λ e. ground arith)

handle-IsSettled_example :
    IsSettled message_short
      (handle parse platform no_uuid (some message_short) now one_order).actions
handle-IsSettled_example =
    handle-IsSettled platform parse no_uuid message_short now one_order (λ e. ground arith)

-- the customer of the order is not in the table
place_order-fails :
    (place_order platform (record dto { customer_id = "nobody" }) now no_orders).0
    ≡ err Store.database_error
unfolding place_order place_in_transaction transaction Store.insert_order order_fits find
    create_order
place_order-fails = refl

abbrev paid_row : OrderRow
paid_row = record placed_row { status = payment_confirmed }

event_is_fine :
    event_ok naturals (
      status_changed_event platform now.now_text
        (moved_order platform payment_confirmed now placed_row one_order.db)
        (some placed)
        payment_confirmed)
    ≡ true
unfolding event_ok status_changed_event Store.items_of
event_is_fine = refl

transition-accepted_example :
    let s' = (transition platform "order-1" payment_confirmed now one_order).1 in
    ((j : String)
      → find (λ r. r.id) j s'.orders
        ≡ (if "order-1" == j then some paid_row else find (λ r. r.id) j one_order.orders))
    × (s'.order_items ≡ [])
unfolding find can_transition
transition-accepted_example =
    transition-accepted platform "order-1" payment_confirmed now one_order placed_row refl refl refl
      event_is_fine

abbrev outbox : List (OutboxEntry ℕ)
outbox =
    record {
      id = 1;
      channel = rabbitmq;
      routing_key = "reserve_stock";
      aggregate_type = "order";
      aggregate_id = "order-1";
      event_type = "order.reserve_stock";
      payload = reserve (record { trace_id = "trace-1"; order_id = "order-1"; items = [] });
      created_at = 100;
      published_at = none;
    }
    ∷ record {
      id = 2;
      channel = rabbitmq;
      routing_key = "notify";
      aggregate_type = "order";
      aggregate_id = "order-1";
      event_type = "order.notify";
      payload = notification (record {
        trace_id = "trace-1";
        order_id = "order-1";
        customer_id = "customer-1";
        type = "ORDER_PLACED";
        channel = "EMAIL";
      });
      created_at = 101;
      published_at = none;
    }
    ∷ []

abbrev idle : PollerState ℕ
idle = record { outbox = outbox; is_polling = false; sent = [] }

outbox-HasKeys : HasKeys outbox
outbox-HasKeys id = ground arith

pending-polls_example : pending (polls 200 (λ e. delivered) 1 idle).outbox ≡ []
unfolding is_pending
pending-polls_example =
    pending-polls 200 (λ e. delivered) (λ e. refl) 1 idle refl outbox-HasKeys (omega arith)

-- RabbitMQ refuses the first entry.
abbrev first_refused : OutboxEntry ℕ → Attempt
first_refused e = if eqb e.id 1 then refused else delivered

publish_all_lem_example :
    ((publish_all 200 first_refused outbox idle).outbox
      ≡ map (settled 200 first_refused outbox) outbox)
    × ((publish_all 200 first_refused outbox idle).sent
        ≡ [] ++ map message (keep (λ e. is_sent (first_refused e)) outbox))
publish_all_lem_example = publish_all_lem 200 first_refused outbox idle

abbrev placed_order : Order
placed_order = create_order platform dto without_redis

placement_fits : order_fits platform placed_order no_orders.db ≡ true
unfolding order_fits find create_order
placement_fits = refl

placement_accepted :
    event_ok platform.js
      (status_changed_event platform without_redis.now_text placed_order none placed)
    ≡ true
unfolding event_ok status_changed_event create_order
placement_accepted = refl

place_order-lost_timeout_example :
    let r = place_order platform dto without_redis no_orders in
    (r.0 ≡ err queue_error)
    × ((j : String)
        → find (λ row. row.id) j r.1.orders
          ≡ (if placed_order.id == j then some placed_order.row else none))
    × (r.1.order_items ≡ [] ++ placed_order.items)
    × (history placed_order.id r.1.outbox
        ≡ history placed_order.id no_orders.outbox ++ (none, placed) ∷ [])
    × (r.1.payment_timeout_queue ≡ [])
unfolding find
place_order-lost_timeout_example =
    place_order-lost_timeout platform dto without_redis no_orders refl placement_fits
      placement_accepted

-- a cancellation of a paid order, over HTTP
abbrev refused_request : HttpRequest ℕ
refused_request = change "order-1" cancelled

abbrev refused_body : ErrorBody
refused_body = record {
  status_code = 400;
  path = "/orders/order-1/transition";
  timestamp = now.now_text;
  message = "Cannot transition order from PAYMENT_CONFIRMED to CANCELLED";
}

refused_over_http :
    (respond_to platform
      (λ s. true)
      (λ r. "")
      "/orders/order-1/transition"
      (λ r q. true)
      refused_request
      now
      paid_order).0
    ≡ failed refused_body
unfolding respond_to is_valid run respond catch text
refused_over_http = rw transition-refused_example

respond_to-failed_example :
    (respond_to platform
      (λ s. true)
      (λ r. "")
      "/orders/order-1/transition"
      (λ r q. true)
      refused_request
      now
      paid_order).1
    ≡ paid_order
respond_to-failed_example =
    respond_to-failed platform (λ s. true) (λ r. "") "/orders/order-1/transition" (λ r q. true)
      refused_request now paid_order refused_body refused_over_http
