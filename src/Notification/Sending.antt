-- ===== src/Notification/Sending.antt =====
-- What becomes of a `notify` message
-- (apps/notification-service/src/messaging/notify.consumer.ts).
use logistics_order_fulfillm.Prelude.{
  String, ◌≡◌, refl, true, false, some, List, [], ◌∷◌, ◌++◌, of_some, subst,
}
use logistics_order_fulfillm.Contracts.Delivery.{ConsumeMessage, Body, payload, ack}
use logistics_order_fulfillm.OrderApi.Entities.{Order}
use logistics_order_fulfillm.OrderApi.Payloads.{build_notify_payload, notify_type_by_status}
use logistics_order_fulfillm.OrderApi.Entities
use logistics_order_fulfillm.Contracts.Status.{OrderStatus, placed}
use logistics_order_fulfillm.Notification.Service.{
  NotifyPayload, NotificationLog, log_fits, send, after_send, on_body, handle,
}

-- The payload as the notification service reads what the order API wrote.
abbrev pub as_read : Entities.NotifyPayload → NotifyPayload
as_read p = record {
  trace_id = p.trace_id;
  order_id = p.order_id;
  customer_id = p.customer_id;
  type = p.type;
  channel = p.channel;
}

-- The log's row of a payload.
abbrev pub sent_row : String → Entities.NotifyPayload → NotificationLog
sent_row uuid p = record {
  id = uuid;
  order_id = p.order_id;
  customer_id = p.customer_id;
  type = p.type;
  channel = p.channel;
  status = "SENT";
}

all_fit :
    (order : Order) (to : OrderStatus) (uuid : String)
    → of_some (λ p. log_fits (sent_row uuid p)) (build_notify_payload order to) ≡ true
unfolding build_notify_payload notify_type_by_status log_fits
all_fit order placed uuid = refl
all_fit order _ uuid = refl

built_fits :
    (order : Order) (to : OrderStatus) (p : Entities.NotifyPayload) (uuid : String)
    → build_notify_payload order to ≡ some p
    → log_fits (sent_row uuid p) ≡ true
built_fits order to p uuid h =
    subst (λ o. of_some (λ p. log_fits (sent_row uuid p)) o ≡ true) h (all_fit order to uuid)

-- With a database that answers, a message whose body is a notification that the order API builds
-- is logged as SENT, with its fields, and acknowledged.
pub handle-sent :
    (parse : String → Body NotifyPayload) (msg : ConsumeMessage) (order : Order) (to : OrderStatus)
    (p : Entities.NotifyPayload) (uuid : String) (rows : List NotificationLog)
    → build_notify_payload order to ≡ some p
    → parse msg.content ≡ payload (as_read p)
    → handle parse (some msg) uuid false rows
      ≡ record { state = rows ++ sent_row uuid p ∷ []; actions = ack ∷ []; uncaught = false }
unfolding handle on_body send after_send
handle-sent parse msg order to p uuid rows built parsed =
    rw (parsed, built_fits order to p uuid built)
