-- ===== src/EventLogs/TimeInStatus.antt =====
-- `averageTimeInStatus` of apps/analytics-service/src/analytics/analytics.service.ts
use logistics_order_fulfillm.Prelude.{
  ℕ, ◌-◌, String, Option, none, some, List, [], ◌∷◌, length, keep, leb, ◌==◌, if◌then◌else◌,
}
use logistics_order_fulfillm.Contracts.Status.{
  OrderStatus, placed, payment_confirmed, picking, packed, shipped, delivered, cancelled, same,
}
use logistics_order_fulfillm.EventLogs.Analytics.{OrderStatusEvent}

pub record TimeInStatusEntry (N : Type 0) : Type 0 where
  pub status : OrderStatus
  pub avg_seconds : N
  pub sample_size : ℕ

unfoldable pub insert_by_time : OrderStatusEvent → List OrderStatusEvent → List OrderStatusEvent
insert_by_time r [] = r ∷ []
insert_by_time r (q ∷ rows) =
    if leb r.event_timestamp q.event_timestamp then r ∷ q ∷ rows else q ∷ insert_by_time r rows

-- ORDER BY event_timestamp; rows of one time keep the table's order.
unfoldable pub by_time : List OrderStatusEvent → List OrderStatusEvent
unfolding insert_by_time
by_time [] = []
by_time (r ∷ rows) = insert_by_time r (by_time rows)

-- The first row of the order, in rows that are ordered.
unfoldable pub next_of : String → List OrderStatusEvent → Option OrderStatusEvent
next_of order_id [] = none
next_of order_id (r ∷ rows) = if r.order_id == order_id then some r else next_of order_id rows

-- A status and the milliseconds that an order was in it.
pub record Stay : Type 0 where
  pub status : OrderStatus
  pub millis : ℕ

unfoldable pub stay_until : OrderStatusEvent → Option OrderStatusEvent → List Stay → List Stay
stay_until r none stays = stays
stay_until r (some next) stays =
    record { status = r.new_status; millis = next.event_timestamp - r.event_timestamp } ∷ stays

-- LEAD over each order, WHERE next_timestamp IS NOT NULL
unfoldable pub stays : List OrderStatusEvent → List Stay
unfolding stay_until
stays [] = []
stays (r ∷ rows) = stay_until r (next_of r.order_id rows) (stays rows)

-- GROUP BY new_status, at one status; a status without a row has no entry. `average` is AVG of the
-- seconds, of durations in milliseconds.
unfoldable pub entry_of :
    {N : Type 0} → (List Stay → N) → OrderStatus → List Stay → List (TimeInStatusEntry N)
entry_of average status rows =
    let group = keep (λ s. same s.status status) rows in
    if leb 1 (length group)
    then record { status = status; avg_seconds = average group; sample_size = length group } ∷ []
    else []

unfoldable pub entries_of :
    {N : Type 0} → (List Stay → N) → List OrderStatus → List Stay → List (TimeInStatusEntry N)
entries_of average [] rows = []
entries_of average (s ∷ ss) rows = elim (entry_of average s rows) [
  | [] ↦ entries_of average ss rows
  | e ∷ es ↦ e ∷ entries_of average ss rows
]

-- The statuses in the order of their texts.
abbrev pub statuses_by_text : List OrderStatus
statuses_by_text =
    cancelled ∷ delivered ∷ packed ∷ payment_confirmed ∷ picking ∷ placed ∷ shipped ∷ []

unfoldable pub average_time_in_status :
    {N : Type 0} → (List Stay → N) → List OrderStatusEvent → List (TimeInStatusEntry N)
average_time_in_status average rows = entries_of average statuses_by_text (stays (by_time rows))
