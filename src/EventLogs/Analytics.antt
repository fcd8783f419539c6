-- ===== src/EventLogs/Analytics.antt =====
-- apps/analytics-service/src: analytics/analytics.service.ts, its entity, and
-- messaging/kafka.consumer.ts.
use logistics_order_fulfillm.Prelude.{
  ℕ, ◌+◌, ◌*◌, ◌/◌, String, Bool, ◌&&◌, Option, none, some, List, [], ◌∷◌, map, keep, length, leb,
  eqb, if◌then◌else◌,
}
use Prim.Native.Nat.{min, max}
use logistics_order_fulfillm.Prelude.Unique.{insert_or_ignore}
use logistics_order_fulfillm.Contracts.Status
use logistics_order_fulfillm.Contracts.Status.{OrderStatus, placed, same}
use logistics_order_fulfillm.Contracts.Json.{JsNumber, Json}
use logistics_order_fulfillm.Contracts.Schema.{OrderStatusChangedEvent, parse_event}

pub record OrderStatusEvent : Type 0 where
  pub order_id : String
  pub branch_id : String
  pub previous_status : Option OrderStatus
  pub new_status : OrderStatus
  pub order_value : String
  pub event_timestamp : ℕ

module _ {N : Type 0} (js : JsNumber N) (to_date : String → ℕ) where
  -- The values of `ingest`; `to_date` is `new Date(…)`, in milliseconds.
  unfoldable pub row_of : OrderStatusChangedEvent N → OrderStatusEvent
  row_of event = record {
    order_id = event.order_id;
    branch_id = event.branch_id;
    previous_status = event.previous_status;
    new_status = event.new_status;
    order_value = js.to_fixed event.order_value;
    event_timestamp = to_date event.timestamp;
  }

  module _ (accepts : OrderStatusEvent → Bool) where
    -- `ingest`; `accepts` says that the columns of the table take the row. `none` is a thrown error.
    -- The constraint `uq_analytics_order_status` makes a second row of a pair a conflict.
    unfoldable pub ingest :
        OrderStatusChangedEvent N → List OrderStatusEvent → Option (List OrderStatusEvent)
    ingest event rows =
        if accepts (row_of event)
        then some
            (insert_or_ignore (λ r. r.order_id) (λ r. Status.text r.new_status) (row_of event) rows)
        else none

    ingest_parsed :
        Option (OrderStatusChangedEvent N) → List OrderStatusEvent → Option (List OrderStatusEvent)
    ingest_parsed none rows = some rows
    ingest_parsed (some event) rows = ingest event rows

    parse_value : Option (Json N) → Option (OrderStatusChangedEvent N)
    parse_value none = none
    parse_value (some j) = parse_event js j

    -- `eachMessage`; a text that is no JSON, or no event, is skipped.
    unfoldable pub each_message :
        (String → Option (Json N)) → String → List OrderStatusEvent → Option (List OrderStatusEvent)
    unfolding ingest_parsed parse_value
    each_message json_parse raw rows = ingest_parsed (parse_value (json_parse raw)) rows

-- SELECT new_status, COUNT(*) … GROUP BY new_status, at one status
unfoldable pub count_of : OrderStatus → List OrderStatusEvent → ℕ
count_of status rows = length (keep (λ r. same r.new_status status) rows)

pub record AnalyticsSummary : Type 0 where
  pub total_orders_placed : ℕ
  pub total_order_value : String
  -- 0 where the record of the source has no entry
  pub counts_by_status : OrderStatus → ℕ

-- `summary`; `sum_numeric` is SUM over the texts of a numeric column, '0' of none.
unfoldable pub summary : (List String → String) → List OrderStatusEvent → AnalyticsSummary
unfolding count_of
summary sum_numeric rows = record {
  total_orders_placed = count_of placed rows;
  total_order_value =
      sum_numeric (map (λ r. r.order_value) (keep (λ r. same r.new_status placed) rows));
  counts_by_status = λ s. count_of s rows;
}

-- `Math.min(Math.max(1, hours), 168)`
unfoldable pub bounded_hours : ℕ → ℕ
bounded_hours hours = min (max 1 hours) 168

pub record OrdersPerHourBucket : Type 0 where
  pub hour : ℕ
  pub count : ℕ

abbrev pub hour_ms : ℕ
hour_ms = 3600000

-- date_trunc('hour', …)
unfoldable pub trunc_hour : ℕ → ℕ
trunc_hour t = (t / hour_ms) * hour_ms

-- One more row in its bucket; the buckets are in the order of their hours.
unfoldable pub add_to_bucket : ℕ → List OrdersPerHourBucket → List OrdersPerHourBucket
add_to_bucket h [] = record { hour = h; count = 1 } ∷ []
add_to_bucket h (b ∷ bs) =
    if eqb b.hour h
    then record { hour = h; count = b.count + 1 } ∷ bs
    else if leb b.hour h
    then b ∷ add_to_bucket h bs
    else record { hour = h; count = 1 } ∷ b ∷ bs

-- GROUP BY hour ORDER BY hour ASC
unfoldable pub buckets : List OrderStatusEvent → List OrdersPerHourBucket
unfolding trunc_hour
buckets [] = []
buckets (r ∷ rows) = add_to_bucket (trunc_hour r.event_timestamp) (buckets rows)

-- The WHERE clause of `ordersPerHour`, at the time `now`.
unfoldable pub in_window : ℕ → ℕ → OrderStatusEvent → Bool
unfolding bounded_hours
in_window now hours r =
    same r.new_status placed && leb now (r.event_timestamp + bounded_hours hours * hour_ms)

unfoldable pub orders_per_hour : ℕ → ℕ → List OrderStatusEvent → List OrdersPerHourBucket
orders_per_hour now hours rows = buckets (keep (in_window now hours) rows)
