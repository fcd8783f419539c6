-- ===== src/EventLogs/Reports.antt =====
-- What the reports of the analytics count
-- (apps/analytics-service/src/analytics/analytics.service.ts).
use logistics_order_fulfillm.Prelude.{
  ℕ, ◌+◌, ◌<◌, String, ◌≡◌, refl, Bool, true, false, ◌&&◌, List, [], ◌∷◌, keep, length, ltb, arith,
  ap, ◌∙◌, All, Bool-cases, eqb, if◌then◌else◌, inl, inr, leb, suc, ◌*◌, ◌/◌, ◌≤◌,
}
use Prim.Native.Nat.{min, max}
use logistics_order_fulfillm.Contracts.Status.{
  placed, payment_confirmed, picking, packed, shipped, delivered, cancelled, same,
}
use logistics_order_fulfillm.EventLogs.Analytics.{
  OrderStatusEvent, count_of, summary, OrdersPerHourBucket, bounded_hours, trunc_hour,
  add_to_bucket, buckets, in_window, orders_per_hour, hour_ms,
}

count_of-sum :
    (rows : List OrderStatusEvent)
    → count_of placed rows
        + count_of payment_confirmed rows
        + count_of picking rows
        + count_of packed rows
        + count_of shipped rows
        + count_of delivered rows
        + count_of cancelled rows
      ≡ length rows
unfolding count_of
count_of-sum [] = refl
count_of-sum (r ∷ rows) = ground (arith, count_of-sum rows)

-- The number of orders placed in the summary and its counts of the other statuses add up to the
-- number of rows.
pub summary-counts :
    (sum_numeric : List String → String) (rows : List OrderStatusEvent)
    → let s = summary sum_numeric rows in
      s.total_orders_placed
        + s.counts_by_status payment_confirmed
        + s.counts_by_status picking
        + s.counts_by_status packed
        + s.counts_by_status shipped
        + s.counts_by_status delivered
        + s.counts_by_status cancelled
      ≡ length rows
unfolding summary
summary-counts sum_numeric rows = count_of-sum rows

-- What the buckets count at one hour.
abbrev pub count_at : ℕ → List OrdersPerHourBucket → ℕ
count_at h [] = 0
count_at h (b ∷ bs) = if eqb b.hour h then b.count + count_at h bs else count_at h bs

-- The row is a placement of the hour that starts at `h`.
abbrev pub is_of_hour : ℕ → OrderStatusEvent → Bool
is_of_hour h r =
    same r.new_status placed && leb h r.event_timestamp && ltb r.event_timestamp (h + hour_ms)

-- The row is at most so many hours old.
abbrev pub is_within : ℕ → ℕ → OrderStatusEvent → Bool
is_within now hours r = leb now (r.event_timestamp + hours * hour_ms)

-- The age that is asked for, between one hour and a week.
abbrev pub is_recent : ℕ → ℕ → OrderStatusEvent → Bool
is_recent now hours r =
    if ltb hours 1
    then is_within now 1 r
    else if ltb 168 hours
    then is_within now 168 r
    else is_within now hours r

-- A bucket has a row, and starts at a whole hour.
abbrev pub IsHourly : OrdersPerHourBucket → Type 0
IsHourly b = (1 ≤ b.count) × (k : ℕ) × (b.hour ≡ k * hour_ms)

-- The hours of the buckets rise, from above `h` on.
abbrev pub rise_from : ℕ → List OrdersPerHourBucket → Bool
rise_from h [] = true
rise_from h (b ∷ bs) = ltb h b.hour && rise_from b.hour bs

abbrev pub rise : List OrdersPerHourBucket → Bool
rise [] = true
rise (b ∷ bs) = rise_from b.hour bs

count_at-add :
    (x h : ℕ) (bs : List OrdersPerHourBucket)
    → count_at x (add_to_bucket h bs) ≡ (if eqb h x then suc (count_at x bs) else count_at x bs)
unfolding add_to_bucket
count_at-add x h [] = ground arith
count_at-add x h (b ∷ bs) = ground (arith, count_at-add x h bs)

rise_from-add :
    (l h : ℕ) (bs : List OrdersPerHourBucket)
    → l < h
    → rise_from l bs ≡ true
    → rise_from l (add_to_bucket h bs) ≡ true
unfolding add_to_bucket
rise_from-add l h [] lt r = ground arith
rise_from-add l h (b ∷ bs) lt r = ground (arith, rise_from-add b.hour h bs)

rise-add :
    (h : ℕ) (bs : List OrdersPerHourBucket) → rise bs ≡ true → rise (add_to_bucket h bs) ≡ true
unfolding add_to_bucket
rise-add h [] r = refl
rise-add h (b ∷ bs) r = ground (arith, rise_from-add b.hour h bs)

IsHourly-add :
    (k : ℕ) (bs : List OrdersPerHourBucket)
    → All IsHourly bs
    → All IsHourly (add_to_bucket (k * hour_ms) bs)
unfolding add_to_bucket
IsHourly-add k [] h = ((omega arith, k, refl), tt)
IsHourly-add k (b ∷ bs) h = elim (Bool-cases (eqb b.hour (k * hour_ms))) [
  | inl here ↦ rw here ((omega arith, k, refl), h.1)
  | inr other ↦ elim (Bool-cases (leb b.hour (k * hour_ms))) [
    | inl before ↦ rw (other, before) (h.0, IsHourly-add k bs h.1)
    | inr after ↦ rw (other, after) ((omega arith, k, refl), h)
  ]
]

buckets-rise : (rows : List OrderStatusEvent) → rise (buckets rows) ≡ true
unfolding buckets
buckets-rise [] = refl
buckets-rise (r ∷ rows) = rise-add (trunc_hour r.event_timestamp) (buckets rows) (buckets-rise rows)

buckets-IsHourly : (rows : List OrderStatusEvent) → All IsHourly (buckets rows)
unfolding buckets trunc_hour
buckets-IsHourly [] = tt
buckets-IsHourly (r ∷ rows) =
    IsHourly-add (r.event_timestamp / hour_ms) (buckets rows) (buckets-IsHourly rows)

same_hour :
    (k t : ℕ)
    → eqb (trunc_hour t) (k * hour_ms) ≡ (leb (k * hour_ms) t && ltb t (k * hour_ms + hour_ms))
unfolding trunc_hour
same_hour k t = ground arith

in_window-is_recent :
    (now hours : ℕ) (r : OrderStatusEvent)
    → in_window now hours r ≡ (same r.new_status placed && is_recent now hours r)
unfolding in_window bounded_hours
in_window-is_recent now hours r = elim (Bool-cases (ltb hours 1)) [
  | inl few ↦ let one : min (max 1 hours) 168 ≡ 1 = ground arith in rw (few, one) refl
  | inr some_hours ↦ elim (Bool-cases (ltb 168 hours)) [
    | inl many ↦
        let week : min (max 1 hours) 168 ≡ 168 = ground arith in rw (some_hours, many, week) refl
    | inr asked ↦
        let same_hours : min (max 1 hours) 168 ≡ hours = ground arith in
        rw (some_hours, asked, same_hours) refl
  ]
]

-- A row of the window falls into the bucket of its hour.
counted_there :
    (now hours k : ℕ) (r : OrderStatusEvent)
    → (in_window now hours r && eqb (trunc_hour r.event_timestamp) (k * hour_ms))
      ≡ (is_of_hour (k * hour_ms) r && is_recent now hours r)
counted_there now hours k r =
    rw (in_window-is_recent now hours r, same_hour k r.event_timestamp)
      (shuffle (same r.new_status placed) (is_recent now hours r) _ _)
  where
    shuffle : (p q a b : Bool) → ((p && q) && (a && b)) ≡ (((p && a) && b) && q)
    shuffle true true a b = ground arith
    shuffle true false a b = ground arith
    shuffle false q a b = refl

count_at-keep :
    (x : ℕ) (p : OrderStatusEvent → Bool) (rows : List OrderStatusEvent)
    → count_at x (buckets (keep p rows))
      ≡ length (keep (λ r. p r && eqb (trunc_hour r.event_timestamp) x) rows)
unfolding buckets
count_at-keep x p [] = refl
count_at-keep x p (r ∷ rows) = elim (Bool-cases (p r)) [
  | inl chosen ↦
      rw
        (
          chosen,
          count_at-add x (trunc_hour r.event_timestamp) (buckets (keep p rows)),
          count_at-keep x p rows,
        )
        (ground arith)
  | inr left_out ↦ rw (left_out, count_at-keep x p rows) refl
]

-- At each whole hour the buckets of the orders per hour count the rows that are PLACED, whose time
-- is in that hour, and which are at most as many hours old as was asked for, but at least one hour
-- and at most 168; every bucket has a row and starts at a whole hour, and the hours of the buckets
-- rise strictly.
pub orders_per_hour_lem :
    (now hours : ℕ) (rows : List OrderStatusEvent)
    → let bs = orders_per_hour now hours rows in
      ((k : ℕ)
        → count_at (k * hour_ms) bs
          ≡ length (keep (λ r. is_of_hour (k * hour_ms) r && is_recent now hours r) rows))
      × All IsHourly bs
      × (rise bs ≡ true)
unfolding orders_per_hour
orders_per_hour_lem now hours rows =
    let kept = keep (in_window now hours) rows in
    (
      λ k.
          count_at-keep (k * hour_ms) (in_window now hours) rows
          ∙ ap (λ p. length (keep p rows)) (λ i r. counted_there now hours k r i),
      buckets-IsHourly kept,
      buckets-rise kept,
    )
