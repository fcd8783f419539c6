-- ===== src/EventLogs/Samples.antt =====
-- How many samples `averageTimeInStatus` averages over
-- (apps/analytics-service/src/analytics/analytics.service.ts).
use logistics_order_fulfillm.Prelude.{
  ℕ, ◌+◌, String, ◌≡◌, refl, ◌∙◌, ap, Bool, true, false, ◌||◌, none, some, List, [], ◌∷◌, length,
  keep, leb, ◌==◌, eq_iff, arith, Bool-cases, Option-cases, inl, inr, if◌then◌else◌,
}
use logistics_order_fulfillm.Contracts.Status.{
  OrderStatus, placed, payment_confirmed, picking, packed, shipped, delivered, cancelled, same,
}
use logistics_order_fulfillm.EventLogs.Analytics.{OrderStatusEvent}
use logistics_order_fulfillm.EventLogs.TimeInStatus.{
  TimeInStatusEntry, insert_by_time, by_time, next_of, Stay, stay_until, stays, entry_of,
  entries_of, statuses_by_text, average_time_in_status,
}

abbrev pub sampled : {N : Type 0} → List (TimeInStatusEntry N) → ℕ
sampled [] = 0
sampled (e ∷ es) = e.sample_size + sampled es

-- Has the order a row?
unfoldable pub has_order : String → List OrderStatusEvent → Bool
has_order id [] = false
has_order id (r ∷ rows) = r.order_id == id || has_order id rows

-- How many orders have rows.
unfoldable pub order_count : List OrderStatusEvent → ℕ
unfolding has_order
order_count [] = 0
order_count (r ∷ rows) =
    let rest = order_count rows in if has_order r.order_id rows then rest else rest + 1

count_in : OrderStatus → List Stay → ℕ
count_in status rows = length (keep (λ s. same s.status status) rows)

sampled-entries_of :
    {N : Type 0} (average : List Stay → N) (status : OrderStatus) (ss : List OrderStatus)
    (rows : List Stay)
    → sampled (entries_of average (status ∷ ss) rows)
      ≡ count_in status rows + sampled (entries_of average ss rows)
unfolding entries_of entry_of count_in
sampled-entries_of average status ss rows =
    elim (Bool-cases (leb 1 (length (keep (λ s. same s.status status) rows)))) [
      | inl there ↦ rw (there, sampled) (omega arith)
      | inr absent ↦ rw (absent, sampled) (ground arith)
    ]

count_in-sum :
    (rows : List Stay)
    → count_in cancelled rows
        + (count_in delivered rows
            + (count_in packed rows
                + (count_in payment_confirmed rows
                    + (count_in picking rows
                        + (count_in placed rows + (count_in shipped rows + 0))))))
      ≡ length rows
unfolding count_in
count_in-sum [] = omega arith
count_in-sum (s ∷ rows) = ground (arith, count_in-sum rows)

sampled-stays :
    {N : Type 0} (average : List Stay → N) (rows : List Stay)
    → sampled (entries_of average statuses_by_text rows) ≡ length rows
unfolding entries_of
sampled-stays average rows = omega (
  arith,
  count_in-sum rows,
  sampled-entries_of average cancelled
      (delivered ∷ packed ∷ payment_confirmed ∷ picking ∷ placed ∷ shipped ∷ []) rows,
  sampled-entries_of average delivered
      (packed ∷ payment_confirmed ∷ picking ∷ placed ∷ shipped ∷ []) rows,
  sampled-entries_of average packed (payment_confirmed ∷ picking ∷ placed ∷ shipped ∷ []) rows,
  sampled-entries_of average payment_confirmed (picking ∷ placed ∷ shipped ∷ []) rows,
  sampled-entries_of average picking (placed ∷ shipped ∷ []) rows,
  sampled-entries_of average placed (shipped ∷ []) rows,
  sampled-entries_of average shipped [] rows,
)

next_of-has_order :
    (id : String) (rows : List OrderStatusEvent)
    → (next_of id rows ≡ none → has_order id rows ≡ false)
      × ((r : OrderStatusEvent) → next_of id rows ≡ some r → has_order id rows ≡ true)
unfolding next_of has_order
next_of-has_order id [] = ground arith
next_of-has_order id (q ∷ rows) = ground (arith, next_of-has_order id rows)

length-stays : (rows : List OrderStatusEvent) → length (stays rows) + order_count rows ≡ length rows
unfolding stays stay_until order_count
length-stays [] = omega arith
length-stays (r ∷ rows) = elim (Option-cases (next_of r.order_id rows)) [
  | inl last ↦
      rw (last, (next_of-has_order r.order_id rows).0 last) (omega (arith, length-stays rows))
  | inr (next, found) ↦
      rw (found, (next_of-has_order r.order_id rows).1 next found)
        (omega (arith, length-stays rows))
]

has_order-insert :
    (id : String) (r : OrderStatusEvent) (rows : List OrderStatusEvent)
    → has_order id (insert_by_time r rows) ≡ has_order id (r ∷ rows)
unfolding insert_by_time has_order
has_order-insert id r [] = refl
has_order-insert id r (q ∷ rows) = ground (arith, has_order-insert id r rows)

order_count-insert :
    (r : OrderStatusEvent) (rows : List OrderStatusEvent)
    → order_count (insert_by_time r rows) ≡ order_count (r ∷ rows)
unfolding insert_by_time order_count
order_count-insert r [] = refl
order_count-insert r (q ∷ rows) = ground (
  arith,
  order_count-insert r rows,
  has_order-insert q.order_id r rows,
  eq_iff q.order_id r.order_id,
  eq_iff r.order_id q.order_id,
)

length-insert_by_time :
    (r : OrderStatusEvent) (rows : List OrderStatusEvent)
    → length (insert_by_time r rows) ≡ length rows + 1
unfolding insert_by_time
length-insert_by_time r [] = omega arith
length-insert_by_time r (q ∷ rows) = ground (arith, length-insert_by_time r rows)

length-by_time : (rows : List OrderStatusEvent) → length (by_time rows) ≡ length rows
unfolding by_time
length-by_time [] = refl
length-by_time (r ∷ rows) =
    omega (arith, length-insert_by_time r (by_time rows), length-by_time rows)

has_order-by_time :
    (id : String) (rows : List OrderStatusEvent) → has_order id (by_time rows) ≡ has_order id rows
unfolding by_time has_order
has_order-by_time id [] = refl
has_order-by_time id (r ∷ rows) =
    has_order-insert id r (by_time rows)
    ∙ ap (λ b. r.order_id == id || b) (has_order-by_time id rows)

order_count-by_time : (rows : List OrderStatusEvent) → order_count (by_time rows) ≡ order_count rows
unfolding by_time order_count
order_count-by_time [] = refl
order_count-by_time (r ∷ rows) =
    order_count-insert r (by_time rows)
    ∙ rw (has_order-by_time r.order_id rows, order_count-by_time rows) refl

-- The sample sizes of the average times in a status add up to the number of rows less one for each
-- order that has rows.
pub average_time_in_status-samples :
    {N : Type 0} (average : List Stay → N) (rows : List OrderStatusEvent)
    → sampled (average_time_in_status average rows) + order_count rows ≡ length rows
unfolding average_time_in_status
average_time_in_status-samples average rows = omega (
  arith,
  sampled-stays average (stays (by_time rows)),
  length-stays (by_time rows),
  order_count-by_time rows,
  length-by_time rows,
)
