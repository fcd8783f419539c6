-- ===== src/Inventory/EventConsumer.antt =====
-- apps/inventory-service/src/messaging/kafka.consumer.ts
use logistics_order_fulfillm.Prelude.{
  ℕ, zero, suc, ◌+◌, String, Bool, Option, none, some, ok, err, leb, if◌then◌else◌,
}
use logistics_order_fulfillm.Contracts.Status.{OrderStatus, payment_confirmed, cancelled, same}
use logistics_order_fulfillm.Contracts.Json.{JsNumber, Json}
use logistics_order_fulfillm.Contracts.Schema.{OrderStatusChangedEvent, parse_event}
use logistics_order_fulfillm.Inventory.Entities.{
  Db, retryable, database_error, ReservationSettlement, commit, release,
}
use logistics_order_fulfillm.Inventory.Service.{Outcome, settle_reservation}

abbrev pub retry_attempts : ℕ
retry_attempts = 5

-- How `handle` ends: it returns, and the offset advances, or it throws, and the event is read again.
-- `out_of_fuel` is the model's own.
pub data Ending : Type 0 where
  returned thrown out_of_fuel : Ending

-- What happens outside while the event is handled: whether the database fails at an attempt, and
-- what other handlers have done to the tables before it.
pub record Outside : Type 0 where
  pub fails : ℕ → Bool
  pub others : ℕ → Db → Db

-- The settlement that an event asks for, if any.
unfoldable pub settlement_for : OrderStatus → Option ReservationSettlement
settlement_for new_status =
    if same new_status payment_confirmed
    then some commit
    else if same new_status cancelled
    then some release
    else none

-- The end of attempt number `attempt`; `again` is what the next attempt gives.
unfoldable pub after_attempt : ℕ → Outcome (Unit {0}) → Ending × Db → Ending × Db
after_attempt attempt (ok _, db) again = (returned, db)
after_attempt attempt (err database_error, db) again = (thrown, db)
after_attempt attempt (err retryable, db) again =
    if leb retry_attempts attempt then (returned, db) else again

-- The loop from attempt number `attempt` on.
unfoldable pub settle_loop : Outside → String → ReservationSettlement → ℕ → ℕ → Db → Ending × Db
settle_loop outside order_id target zero attempt db = (out_of_fuel, db)
settle_loop outside order_id target (suc fuel) attempt db =
    let met = outside.others attempt db in
    let done = settle_reservation order_id target (outside.fails attempt) met in
    let again = settle_loop outside order_id target fuel (attempt + 1) done.1 in
    after_attempt attempt done again

unfoldable pub settle_for : Outside → String → Option ReservationSettlement → Db → Ending × Db
settle_for outside order_id none db = (returned, db)
settle_for outside order_id (some target) db =
    settle_loop outside order_id target retry_attempts 1 db

-- A text that is no JSON, or no event, is skipped.
unfoldable pub on_event :
    {N : Type 0} → Outside → Option (OrderStatusChangedEvent N) → Db → Ending × Db
on_event outside none db = (returned, db)
on_event outside (some event) db =
    settle_for outside event.order_id (settlement_for event.new_status) db

unfoldable pub parse_value :
    {N : Type 0} → JsNumber N → Option (Json N) → Option (OrderStatusChangedEvent N)
parse_value js none = none
parse_value js (some j) = parse_event js j

-- `handle`; `json_parse` is JSON.parse, with `none` for a text that it rejects.
unfoldable pub handle :
    {N : Type 0} → JsNumber N → (String → Option (Json N)) → Outside → String → Db → Ending × Db
unfolding parse_value
handle js json_parse outside raw db = on_event outside (parse_value js (json_parse raw)) db
