-- ===== src/Notification/Service.antt =====
-- apps/notification-service/src: notifications/notifications.service.ts, its entity, and
-- messaging/notify.consumer.ts.
use Prim.Native.String.{count}
use logistics_order_fulfillm.Prelude.{
  String, Bool, true, false, ◌&&◌, ◌||◌, Option, none, some, List, [], ◌∷◌, ◌++◌, ◌==◌, leb,
  if◌then◌else◌,
}
use logistics_order_fulfillm.Contracts.Topology.{notify}
use logistics_order_fulfillm.Contracts.Delivery.{
  ConsumeMessage, Body, malformed, null_body, payload, ack, send_to_queue, Handled, retry_later,
}

pub record NotifyPayload : Type 0 where
  pub trace_id : String
  pub order_id : String
  pub customer_id : String
  pub type : String
  pub channel : String

pub record SendNotificationInput : Type 0 where
  pub order_id : String
  pub customer_id : String
  pub type : String
  pub channel : String

pub record NotificationLog : Type 0 where
  pub id : String
  pub order_id : String
  pub customer_id : String
  pub type : String
  pub channel : String
  pub status : String

-- The CHECK of the channel and the length of the type.
unfoldable pub log_fits : NotificationLog → Bool
log_fits entry = (entry.channel == "EMAIL" || entry.channel == "SMS") && leb (count entry.type) 30

-- `send`: the table after it, or `none` where the insert throws; `uuid` is the id that the table
-- gives, and `fails` a database that does not answer.
unfoldable pub send :
    SendNotificationInput → String → Bool → List NotificationLog → Option (List NotificationLog)
unfolding log_fits
send input uuid fails rows =
    let entry : NotificationLog = record {
      id = uuid;
      order_id = input.order_id;
      customer_id = input.customer_id;
      type = input.type;
      channel = input.channel;
      status = "SENT";
    } in
    if fails then none else if log_fits entry then some (rows ++ entry ∷ []) else none

unfoldable pub after_send :
    ConsumeMessage
    → List NotificationLog
    → Option (List NotificationLog)
    → Handled (List NotificationLog)
after_send msg rows none = record {
  state = rows;
  actions = retry_later notify.config msg;
  uncaught = false;
}
after_send msg rows (some rows') = record { state = rows'; actions = ack ∷ []; uncaught = false }

-- The value `null` throws at `payload.order_id`, and again in the `catch`.
unfoldable pub on_body :
    Body NotifyPayload
    → ConsumeMessage
    → String
    → Bool
    → List NotificationLog
    → Handled (List NotificationLog)
unfolding after_send
on_body malformed msg uuid fails rows = record {
  state = rows;
  actions = send_to_queue notify.config.dlq msg.content ∷ ack ∷ [];
  uncaught = false;
}
on_body null_body msg uuid fails rows = record { state = rows; actions = []; uncaught = true }
on_body (payload p) msg uuid fails rows = after_send msg rows (
    send
      (record {
        order_id = p.order_id;
        customer_id = p.customer_id;
        type = p.type;
        channel = p.channel;
      })
      uuid fails rows)

unfoldable pub handle :
    (String → Body NotifyPayload)
    → Option ConsumeMessage
    → String
    → Bool
    → List NotificationLog
    → Handled (List NotificationLog)
handle parse none uuid fails rows = record { state = rows; actions = []; uncaught = false }
handle parse (some msg) uuid fails rows = on_body (parse msg.content) msg uuid fails rows
