-- ===== src/Inventory/Patience.antt =====
-- How long the inventory waits for a reservation that an event asks to settle
-- (`handle` of apps/inventory-service/src/messaging/kafka.consumer.ts).
use logistics_order_fulfillm.Prelude.{
  ℕ, zero, suc, ◌+◌, ◌≤◌, ◌<◌, String, ◌≡◌, ◌≢◌, refl, Bool, true, false, Option, none, some, [],
  ok, err, leb, arith, subst,
}
use logistics_order_fulfillm.Contracts.Json.{JsNumber, Json}
use logistics_order_fulfillm.Contracts.Schema.{OrderStatusChangedEvent, parse_event}
use logistics_order_fulfillm.Inventory.Entities.{
  Db, retryable, database_error, ReservationSettlement,
}
use logistics_order_fulfillm.Inventory.Service.{Outcome, of_order, settle_reservation}
use logistics_order_fulfillm.Inventory.EventConsumer.{
  retry_attempts, Ending, returned, out_of_fuel, Outside, settlement_for, after_attempt,
  settle_loop, settle_for, on_event, handle,
}

after_attempt-ends :
    (attempt : ℕ) (r : Outcome (Unit {0})) (again : Ending × Db)
    → (attempt < 5 → again.0 ≢ out_of_fuel)
    → (after_attempt attempt r again).0 ≢ out_of_fuel
unfolding after_attempt
after_attempt-ends attempt (ok u, db) again n = λ e. ground arith
after_attempt-ends attempt (err database_error, db) again n = λ e. ground arith
after_attempt-ends attempt (err retryable, db) again n = λ e. ground arith

settle_loop-ends :
    (outside : Outside) (order_id : String) (target : ReservationSettlement) (fuel attempt : ℕ)
    (db : Db)
    → 1 ≤ fuel
    → fuel + attempt ≡ 6
    → (settle_loop outside order_id target fuel attempt db).0 ≢ out_of_fuel
unfolding settle_loop
settle_loop-ends outside order_id target zero attempt db some_fuel sum = absurd (omega arith)
settle_loop-ends outside order_id target (suc fuel) attempt db some_fuel sum =
    after_attempt-ends attempt
      (settle_reservation order_id target (outside.fails attempt) (outside.others attempt db)) _
      (λ early.
        settle_loop-ends outside order_id target fuel (attempt + 1) _ (omega arith) (omega arith))

settle_for-ends :
    (outside : Outside) (order_id : String) (target : Option ReservationSettlement) (db : Db)
    → (settle_for outside order_id target db).0 ≢ out_of_fuel
unfolding settle_for
settle_for-ends outside order_id none db = λ e. ground arith
settle_for-ends outside order_id (some target) db =
    settle_loop-ends outside order_id target 5 1 db (omega arith) refl

on_event-ends :
    {N : Type 0} (outside : Outside) (event : Option (OrderStatusChangedEvent N)) (db : Db)
    → (on_event outside event db).0 ≢ out_of_fuel
unfolding on_event
on_event-ends outside none db = λ e. ground arith
on_event-ends outside (some event) db =
    settle_for-ends outside event.order_id (settlement_for event.new_status) db

-- Whatever the text, the tables and what happens outside, the handling of an event ends within its
-- five attempts: the fuel is never used up.
pub handle-ends :
    {N : Type 0} (js : JsNumber N) (json_parse : String → Option (Json N)) (outside : Outside)
    (raw : String) (db : Db)
    → (handle js json_parse outside raw db).0 ≢ out_of_fuel
unfolding handle
handle-ends js json_parse outside raw db = on_event-ends outside _ db

-- What attempt number `n` finds, if the attempts before it, from number `k` on, changed nothing.
abbrev pub met : Outside → ℕ → ℕ → Db → Db
met outside k zero db = outside.others k db
met outside k (suc n) db = met outside (k + 1) n (outside.others k db)

-- The attempts `k` to `k + n - 1` find no reservation.
abbrev pub NothingYet : Outside → String → ℕ → ℕ → Db → Type 0
NothingYet outside order_id k zero db = Unit
NothingYet outside order_id k (suc n) db =
    (outside.fails k ≡ false)
    × (of_order order_id (outside.others k db).reservations ≡ [])
    × NothingYet outside order_id (k + 1) n (outside.others k db)

too_early :
    (order_id : String) (target : ReservationSettlement) (fails : Bool) (db : Db)
    → fails ≡ false
    → of_order order_id db.reservations ≡ []
    → settle_reservation order_id target fails db ≡ (err retryable, db)
unfolding settle_reservation
too_early order_id target fails db up nothing = rw (up, nothing)

settle_loop-late :
    (outside : Outside) (order_id : String) (target : ReservationSettlement) (n fuel k last : ℕ)
    (db : Db) (db' : Db)
    → n < fuel
    → fuel + k ≡ 6
    → last ≡ k + n
    → NothingYet outside order_id k n db
    → settle_reservation order_id target (outside.fails last) (met outside k n db) ≡ (ok tt, db')
    → settle_loop outside order_id target fuel k db ≡ (returned, db')
unfolding settle_loop after_attempt
settle_loop-late outside order_id target n zero k last db db' few sum l early done =
    absurd (omega arith)
settle_loop-late outside order_id target zero (suc fuel) k last db db' few sum l early done =
    let here : last ≡ k = omega arith in
    let now : settle_reservation order_id target (outside.fails k) (outside.others k db)
        ≡ (ok tt, db') =
      subst
        (λ (i : ℕ).
          settle_reservation order_id target (outside.fails i) (outside.others k db) ≡ (ok tt, db'))
        here done in
    rw now
settle_loop-late outside order_id target (suc n) (suc fuel) k last db db' few sum l early done =
    let more : leb retry_attempts k ≡ false = ground arith in
    rw (too_early order_id target (outside.fails k) (outside.others k db) early.0 early.1, more)
      (settle_loop-late outside order_id target n fuel (k + 1) last (outside.others k db) db'
        (omega arith) (omega arith) (omega arith) early.2 done)

settle_loop-gives_up :
    (outside : Outside) (order_id : String) (target : ReservationSettlement) (n k : ℕ) (db : Db)
    → suc n + k ≡ 6
    → NothingYet outside order_id k (suc n) db
    → settle_loop outside order_id target (suc n) k db ≡ (returned, met outside k n db)
unfolding settle_loop after_attempt
settle_loop-gives_up outside order_id target zero k db sum early =
    let last : leb retry_attempts k ≡ true = ground arith in
    rw (too_early order_id target (outside.fails k) (outside.others k db) early.0 early.1, last)
settle_loop-gives_up outside order_id target (suc n) k db sum early =
    let more : leb retry_attempts k ≡ false = ground arith in
    rw (too_early order_id target (outside.fails k) (outside.others k db) early.0 early.1, more)
      (settle_loop-gives_up outside order_id target n (k + 1) (outside.others k db) (omega arith)
        early.2)

module _ {N : Type 0} (js : JsNumber N) (json_parse : String → Option (Json N)) (outside : Outside)
    (raw : String) (j : Json N) (event : OrderStatusChangedEvent N) (target : ReservationSettlement)
    (is_json : json_parse raw ≡ some j) (is_event : parse_event js j ≡ some event)
    (acts : settlement_for event.new_status ≡ some target) where
  -- An event that asks for a settlement, of an order whose reservations are not there at the first
  -- n attempts, n below five, and whose settlement succeeds at the next, ends with that
  -- settlement's tables and advances the offset.
  pub handle-late :
      (n : ℕ) (db db' : Db)
      → n < retry_attempts
      → NothingYet outside event.order_id 1 n db
      → settle_reservation event.order_id target (outside.fails (1 + n)) (met outside 1 n db)
        ≡ (ok tt, db')
      → handle js json_parse outside raw db ≡ (returned, db')
  unfolding handle on_event settle_for
  handle-late n db db' few early done =
      rw (is_json, is_event, acts)
        (settle_loop-late outside event.order_id target n 5 1 (1 + n) db db' few refl refl early
          done)

  -- An event that asks for a settlement, of an order whose reservations are not there at any of
  -- the five attempts, advances the offset and settles nothing.
  pub handle-gives_up :
      (db : Db)
      → NothingYet outside event.order_id 1 retry_attempts db
      → handle js json_parse outside raw db ≡ (returned, met outside 1 4 db)
  unfolding handle on_event settle_for
  handle-gives_up db early =
      rw (is_json, is_event, acts)
        (settle_loop-gives_up outside event.order_id target 4 1 db refl early)
