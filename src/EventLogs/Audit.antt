-- ===== src/EventLogs/Audit.antt =====
-- apps/audit-service/src: audit/audit.service.ts, its entity, and messaging/kafka.consumer.ts.
use logistics_order_fulfillm.Prelude.{ℕ, String, Bool, Option, none, some, List, if◌then◌else◌}
use logistics_order_fulfillm.Prelude.Unique.{insert_or_ignore}
use logistics_order_fulfillm.Contracts.Status
use logistics_order_fulfillm.Contracts.Status.{OrderStatus}
use logistics_order_fulfillm.Contracts.Json.{JsNumber, Json}
use logistics_order_fulfillm.Contracts.Schema.{EventItem, OrderStatusChangedEvent, parse_event}

pub record OrderStatusLog (N : Type 0) : Type 0 where
  pub order_id : String
  pub customer_id : String
  pub previous_status : Option OrderStatus
  pub new_status : OrderStatus
  pub delivery_address : String
  pub order_value : String
  pub items : List (EventItem N)
  pub branch_id : String
  pub event_timestamp : ℕ

module _ {N : Type 0} (js : JsNumber N) (to_date : String → ℕ) where
  -- The values of `record`; `to_date` is `new Date(…)`, in milliseconds.
  unfoldable pub log_of : OrderStatusChangedEvent N → OrderStatusLog N
  log_of event = record {
    order_id = event.order_id;
    customer_id = event.customer_id;
    previous_status = event.previous_status;
    new_status = event.new_status;
    delivery_address = event.delivery_address;
    order_value = js.to_fixed event.order_value;
    items = event.items;
    branch_id = event.branch_id;
    event_timestamp = to_date event.timestamp;
  }

  module _ (accepts : OrderStatusLog N → Bool) where
    -- `record`; `accepts` says that the columns of the table take the row. `none` is a thrown error.
    -- The constraint `uq_audit_order_status` makes a second row of a pair a conflict.
    unfoldable pub record_event :
        OrderStatusChangedEvent N → List (OrderStatusLog N) → Option (List (OrderStatusLog N))
    record_event event rows =
        if accepts (log_of event)
        then some
            (insert_or_ignore (λ r. r.order_id) (λ r. Status.text r.new_status) (log_of event) rows)
        else none

    record_parsed :
        Option (OrderStatusChangedEvent N)
        → List (OrderStatusLog N)
        → Option (List (OrderStatusLog N))
    record_parsed none rows = some rows
    record_parsed (some event) rows = record_event event rows

    parse_value : Option (Json N) → Option (OrderStatusChangedEvent N)
    parse_value none = none
    parse_value (some j) = parse_event js j

    -- `eachMessage`; a text that is no JSON, or no event, is skipped.
    unfoldable pub each_message :
        (String → Option (Json N))
        → String
        → List (OrderStatusLog N)
        → Option (List (OrderStatusLog N))
    unfolding record_parsed parse_value
    each_message json_parse raw rows = record_parsed (parse_value (json_parse raw)) rows
