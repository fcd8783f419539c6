-- ===== src/Composition/Safety.antt =====
-- What holds of the goods and the orders, however the services' steps interleave
-- (apps/order-api/src/orders/orders.service.ts, apps/order-api/src/jobs/outbox-poller.service.ts,
-- apps/inventory-service/src/messaging/kafka.consumer.ts).
use logistics_order_fulfillm.Prelude.{
  String, ◌≡◌, refl, Bool, true, false, Option, none, some, [], All,
}
use logistics_order_fulfillm.Prelude.Table
use logistics_order_fulfillm.Prelude.Everywhere.{All-imp}
use logistics_order_fulfillm.Contracts.Status.{OrderStatus, cancelled, same}
use logistics_order_fulfillm.OrderApi.Entities.{Platform}
use logistics_order_fulfillm.OrderApi.History.{history}
use logistics_order_fulfillm.OrderApi.Consistency.{IsConsistent, status_of}
use logistics_order_fulfillm.Inventory.Entities.{ReservationState, reserved, committed, released}
use logistics_order_fulfillm.Composition.World.{World, Reach}
use logistics_order_fulfillm.Composition.Announced.{
  is_paid, replay-is_paid, replay-cancelled, announced,
}
use logistics_order_fulfillm.Composition.Invariant.{Reach-Inv}
use logistics_order_fulfillm.Composition.Backing.{Inv, Justified}

-- A reservation in this state fits an order in this status: what is sold was paid for, and what was
-- returned was cancelled.
abbrev pub agrees : Option OrderStatus → ReservationState → Bool
agrees status reserved = true
agrees status committed = is_paid status
agrees none released = false
agrees (some status) released = same status cancelled

-- No message is on its way, nothing is logged, and nothing is reserved.
pub record IsQuiet {N : Type 0} (w : World N) : Type 0 where
  pub consistent : IsConsistent w.api.db
  pub no_batch : w.batch ≡ []
  pub nothing_sent : w.sent ≡ []
  pub nothing_logged : w.audit ≡ []
  pub nothing_reserved : w.inventory.reservations ≡ []

module _ {N : Type 0} where
  quiet-Inv : (w : World N) → IsQuiet w → Inv w
  quiet-Inv w q = record {
    consistent = q.consistent;
    queued = rw q.no_batch tt;
    handed = rw q.nothing_sent tt;
    goods = rw q.nothing_reserved tt;
    logged = rw q.nothing_logged tt;
  }

  Justified-agrees :
      (w : World N)
      → IsConsistent w.api.db
      → (id : String) (state : ReservationState) → Justified w.api.outbox id state
      → agrees (status_of (Table.find (λ row. row.id) id w.api.orders)) state ≡ true
  Justified-agrees w c id reserved j = refl
  Justified-agrees w c id committed j = replay-is_paid none (history id w.api.outbox) _ (c id) j
  Justified-agrees w c id released j =
      rw (replay-cancelled none (history id w.api.outbox) _ (c id) j)

-- If the outbox records the status of each order, nothing is reserved or logged and no message is
-- on its way, then after any steps of the services, in any order and with any redeliveries and
-- failures, every reservation that is COMMITTED belongs to an order whose status is one that
-- follows a confirmed payment, and every reservation that is RELEASED belongs to a CANCELLED
-- order.
pub Reach-agrees :
    {N : Type 0} (pf : Platform N) (start w : World N)
    → IsQuiet start
    → Reach pf start w
    → All
        (λ r.
          agrees (status_of (Table.find (λ row. row.id) r.order_id w.api.orders)) r.status ≡ true)
        w.inventory.reservations
Reach-agrees pf start w quiet run =
    let i = Reach-Inv pf (quiet-Inv start quiet) run in
    All-imp _ _ w.inventory.reservations (λ r. Justified-agrees w i.consistent r.order_id r.status)
      i.goods

-- If the outbox records the status of each order, nothing is reserved or logged and no message is
-- on its way, then after any steps of the services, in any order and with any redeliveries and
-- failures, each row of the audit log is a change of status that the outbox records for its order.
pub Reach-logged :
    {N : Type 0} (pf : Platform N) (start w : World N)
    → IsQuiet start
    → Reach pf start w
    → All (λ row. announced row.order_id row.new_status w.api.outbox ≡ true) w.audit
Reach-logged pf start w quiet run = (Reach-Inv pf (quiet-Inv start quiet) run).logged
