-- ===== src/Examples/Logs.antt =====
-- The event logs and the notifications at concrete inputs.
use logistics_order_fulfillm.Prelude.{
  ℕ, ◌≡◌, refl, String, Bool, true, false, List, [], ◌∷◌, Option, some, none, if◌then◌else◌, ◌==◌,
  keep, length, ◌+◌, ◌*◌, ◌&&◌, All,
}
use logistics_order_fulfillm.Prelude.Unique.{are_unique, holds}
use logistics_order_fulfillm.Contracts.Status
use logistics_order_fulfillm.Contracts.Status.{
  placed, payment_confirmed, picking, packed, shipped, delivered, cancelled,
}
use logistics_order_fulfillm.Contracts.Delivery.{Body, malformed, payload, ack}
use logistics_order_fulfillm.Contracts.Json.{Json}
use logistics_order_fulfillm.Contracts.Schema.{event_json, event_ok}
use logistics_order_fulfillm.Contracts.RoundTrip.{parse_event-event_json}
use logistics_order_fulfillm.OrderApi.Entities
use logistics_order_fulfillm.OrderApi.Payloads.{build_notify_payload}
use logistics_order_fulfillm.EventLogs.Audit
use logistics_order_fulfillm.EventLogs.Analytics
use logistics_order_fulfillm.EventLogs.Analytics.{
  OrderStatusEvent, summary, orders_per_hour, in_window, bounded_hours, buckets, trunc_hour,
  add_to_bucket, hour_ms,
}
use logistics_order_fulfillm.EventLogs.Deliveries.{consume, rows_of}
use logistics_order_fulfillm.EventLogs.Ingestion.{audit_row, audit_complete, analytics_row}
use logistics_order_fulfillm.EventLogs.TimeInStatus.{
  average_time_in_status, stays, stay_until, by_time, insert_by_time, next_of, entries_of, entry_of,
}
use logistics_order_fulfillm.EventLogs.Samples.{
  sampled, order_count, average_time_in_status-samples,
}
use logistics_order_fulfillm.EventLogs.Reports.{
  count_at, is_of_hour, is_recent, IsHourly, rise, orders_per_hour_lem,
}
use logistics_order_fulfillm.Notification.Service.{NotificationLog, handle}
use logistics_order_fulfillm.Notification.Service as Notifications
use logistics_order_fulfillm.Notification.Sending.{as_read, sent_row, handle-sent}
use logistics_order_fulfillm.Examples.Samples.{naturals, placed_row, cancellation}

abbrev json_parse : String → Option (Json ℕ)
json_parse s = if s == "cancel" then some (event_json cancellation) else none

abbrev to_date : String → ℕ
to_date s = 3600000

abbrev takes : Audit.OrderStatusLog ℕ → Bool
takes row = true

abbrev takes_event : OrderStatusEvent → Bool
takes_event row = true

-- one event twice, and a text that is no event
abbrev raws : List String
raws = "cancel" ∷ "rubbish" ∷ "cancel" ∷ []

audit_fresh :
    are_unique
      (λ r. r.order_id)
      (λ r. Status.text r.new_status)
      (rows_of (audit_row naturals to_date json_parse takes) ("cancel" ∷ []))
    ≡ true
unfolding audit_row holds event_ok
audit_fresh = rw (parse_event-event_json naturals cancellation) refl

audit_complete_example :
    consume (Audit.each_message naturals to_date takes json_parse) ("cancel" ∷ []) []
    ≡ rows_of (audit_row naturals to_date json_parse takes) ("cancel" ∷ [])
audit_complete_example =
    audit_complete naturals to_date json_parse takes ("cancel" ∷ []) [] audit_fresh

analytics_fresh :
    are_unique
      (λ r. r.order_id)
      (λ r. Status.text r.new_status)
      (rows_of (analytics_row naturals to_date json_parse takes_event) ("cancel" ∷ []))
    ≡ true
unfolding analytics_row holds event_ok
analytics_fresh = rw (parse_event-event_json naturals cancellation) refl

abbrev placement : OrderStatusEvent
placement = record {
  order_id = "order-1";
  branch_id = "branch_01";
  previous_status = none;
  new_status = placed;
  order_value = "10";
  event_timestamp = 7200001;
}

abbrev events : List OrderStatusEvent
events =
    placement
    ∷ record placement { order_id = "order-2"; event_timestamp = 7200002 }
    ∷ record placement { new_status = cancelled; event_timestamp = 7200003 }
    ∷ []

orders_per_hour_lem_example :
    let bs = orders_per_hour 7300000 24 events in
    ((k : ℕ)
      → count_at (k * hour_ms) bs
        ≡ length (keep (λ r. is_of_hour (k * hour_ms) r && is_recent 7300000 24 r) events))
    × All IsHourly bs
    × (rise bs ≡ true)
orders_per_hour_lem_example = orders_per_hour_lem 7300000 24 events

two_in_an_hour : orders_per_hour 7300000 24 events ≡ record { hour = 7200000; count = 2 } ∷ []
unfolding orders_per_hour in_window bounded_hours buckets trunc_hour add_to_bucket
two_in_an_hour = refl

abbrev order : Entities.Order
order = record { row = placed_row; items = [] }

abbrev shipped_payload : Entities.NotifyPayload
shipped_payload = record {
  trace_id = "trace-1";
  order_id = "order-1";
  customer_id = "customer-1";
  type = "SHIPPED";
  channel = "EMAIL";
}

abbrev parse : String → Body Notifications.NotifyPayload
parse s = if s == "shipped" then payload (as_read shipped_payload) else malformed

handle-sent_example :
    handle parse (some (record { content = "shipped"; x_death = none })) "row" false []
    ≡ record { state = sent_row "row" shipped_payload ∷ []; actions = ack ∷ []; uncaught = false }
unfolding build_notify_payload
handle-sent_example =
    handle-sent parse (record { content = "shipped"; x_death = none }) order shipped shipped_payload
      "row" [] refl refl

-- Two orders, of which the first has two rows.
abbrev three_events : List OrderStatusEvent
three_events =
    record (Analytics.row_of naturals to_date cancellation) { event_timestamp = 9000 }
    ∷ record (Analytics.row_of naturals to_date cancellation) {
      new_status = placed;
      event_timestamp = 2000;
    }
    ∷ record (Analytics.row_of naturals to_date cancellation) {
      order_id = "order-2";
      event_timestamp = 5000;
    }
    ∷ []

average_time_in_status-samples_example :
    sampled (average_time_in_status length three_events) + order_count three_events ≡ 3
average_time_in_status-samples_example = average_time_in_status-samples length three_events

one_sample :
    average_time_in_status length three_events
    ≡ record { status = placed; avg_seconds = 1; sample_size = 1 } ∷ []
unfolding average_time_in_status stays stay_until by_time insert_by_time next_of entries_of entry_of
    Analytics.row_of
one_sample = refl
