-- ===== src/Examples/Settlements.antt =====
-- Settlements and the inventory's two consumers at concrete inputs.
use logistics_order_fulfillm.Prelude.{
  ℕ, ◌≡◌, ◌≢◌, refl, ◌≤◌, String, true, false, [], ◌∷◌, ◌++◌, ok, arith, Option, some, none,
  if◌then◌else◌, ◌==◌, eq_iff, eqb, ne_of_text_test,
}
use logistics_order_fulfillm.Prelude.Table.{find, save}
use logistics_order_fulfillm.Contracts.Delivery.{
  ConsumeMessage, Body, malformed, payload, ack, reserved,
}
use logistics_order_fulfillm.Contracts.Json.{Json}
use logistics_order_fulfillm.Contracts.Schema.{event_json, parse_event, event_ok}
use logistics_order_fulfillm.Contracts.RoundTrip.{parse_event-event_json}
use logistics_order_fulfillm.Inventory.Entities
use logistics_order_fulfillm.Inventory.Service.{
  of_order, result_of, reserve_stock, settle_reservation, settle_rows, settle_step, settle_row,
  unavailable, take_items, take_item,
}
use logistics_order_fulfillm.Inventory.Conservation.{owned}
use logistics_order_fulfillm.Inventory.Ledger.{IsBalanced}
use logistics_order_fulfillm.Inventory.Settled.{HasStock, settle_reservation-final}
use logistics_order_fulfillm.Inventory.SettleTotal.{settle_reservation-total}
use logistics_order_fulfillm.Inventory.ReserveConsumer.{State, Ambient, handle}
use logistics_order_fulfillm.Inventory.Replies.{deliveries, deliveries-once}
use logistics_order_fulfillm.Inventory.EventConsumer
use logistics_order_fulfillm.Inventory.EventConsumer.{
  returned, out_of_fuel, Outside, settlement_for,
}
use logistics_order_fulfillm.Inventory.Patience.{
  NothingYet, handle-ends, handle-late, handle-gives_up,
}
use logistics_order_fulfillm.Examples.Samples.{
  naturals, shelf, uuid, two_lines, reserved_shelf, released_shelf, cancellation,
}

abbrev release : Entities.ReservationSettlement
release = Entities.release

abbrev commit : Entities.ReservationSettlement
commit = Entities.commit

shelf-HasStock : HasStock reserved_shelf
unfolding find
shelf-HasStock = refl

released_once : settle_reservation "order-1" release false reserved_shelf ≡ (ok tt, released_shelf)
unfolding settle_reservation of_order settle_rows settle_step settle_row find save
released_once = refl

settle_reservation-final_example :
    settle_reservation "order-1" commit false released_shelf ≡ (ok tt, released_shelf)
settle_reservation-final_example =
    settle_reservation-final "order-1" release commit reserved_shelf released_shelf shelf-HasStock
      released_once

shelf-IsBalanced : IsBalanced reserved_shelf
unfolding find
shelf-IsBalanced sku = ground (arith, eq_iff "A" sku, eq_iff "B" sku, ne_of_text_test "A" "B" refl)

owned_fits : (sku : String) → owned sku reserved_shelf ≤ Entities.int_max
unfolding find
owned_fits sku = ground (arith, eq_iff "A" sku, eq_iff "B" sku, ne_of_text_test "A" "B" refl)

two_reservations : of_order "order-1" reserved_shelf.reservations ≢ []
unfolding of_order
two_reservations e = ground arith

settle_reservation-total_example :
    (settle_reservation "order-1" commit false reserved_shelf).0 ≡ ok tt
settle_reservation-total_example =
    settle_reservation-total "order-1" commit reserved_shelf shelf-IsBalanced owned_fits
      two_reservations

abbrev parse : String → Body Entities.ReserveStockInput
parse s = if s == "two" then payload two_lines else malformed

abbrev message : ConsumeMessage
message = record { content = "two"; x_death = none }

abbrev well : Ambient
well = record { uuid = uuid; database_fails = false; reply_fails = false }

abbrev unheard : Ambient
unheard = record { uuid = uuid; database_fails = false; reply_fails = true }

abbrev stored : State
stored = record { db = reserved_shelf; replies = [] }

reserved_first :
    reserve_stock two_lines uuid false shelf ≡ (ok (result_of two_lines reserved), reserved_shelf)
unfolding reserve_stock of_order unavailable take_items take_item find save
reserved_first = refl

deliveries-once_example :
    let s' = deliveries parse message (unheard ∷ unheard ∷ []) stored in
    (s'.db ≡ reserved_shelf)
    × (handle parse (some message) well s' ≡ record {
      state = record {
        db = reserved_shelf;
        replies = s'.replies ++ result_of two_lines reserved ∷ [];
      };
      actions = ack ∷ [];
      uncaught = false;
    })
deliveries-once_example =
    deliveries-once parse message two_lines refl uuid shelf (unheard ∷ unheard ∷ []) well stored
      reserved_first refl refl

abbrev json_parse : String → Option (Json ℕ)
json_parse s = if s == "cancel" then some (event_json cancellation) else none

is_cancellation : parse_event naturals (event_json cancellation) ≡ some cancellation
unfolding event_ok
is_cancellation = parse_event-event_json naturals cancellation

-- The reservation is there from the third attempt on.
abbrev third : Outside
third = record { fails = λ k. false; others = λ k db. if eqb k 3 then reserved_shelf else db }

-- No reservation is ever made.
abbrev never : Outside
never = record { fails = λ k. false; others = λ k db. db }

handle-ends_example :
    (EventConsumer.handle naturals json_parse never "cancel" shelf).0 ≢ out_of_fuel
handle-ends_example = handle-ends naturals json_parse never "cancel" shelf

nothing_yet : NothingYet third "order-1" 1 2 shelf
unfolding of_order
nothing_yet = (refl, refl, (refl, refl, tt))

handle-late_example :
    EventConsumer.handle naturals json_parse third "cancel" shelf ≡ (returned, released_shelf)
unfolding settlement_for
handle-late_example =
    handle-late naturals json_parse third "cancel" (event_json cancellation) cancellation release
      refl is_cancellation refl 2 shelf released_shelf (omega arith) nothing_yet released_once

nothing_ever : NothingYet never "order-1" 1 5 shelf
unfolding of_order
nothing_ever = (refl, refl, (refl, refl, (refl, refl, (refl, refl, (refl, refl, tt)))))

handle-gives_up_example :
    EventConsumer.handle naturals json_parse never "cancel" shelf ≡ (returned, shelf)
unfolding settlement_for
handle-gives_up_example =
    handle-gives_up naturals json_parse never "cancel" (event_json cancellation) cancellation
      release refl is_cancellation refl shelf nothing_ever
