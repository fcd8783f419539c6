-- ===== src/Composition/World.antt =====
-- The order API (apps/order-api/src/orders/orders.service.ts), its poller
-- (apps/order-api/src/jobs/outbox-poller.service.ts), the inventory's two consumers
-- (apps/inventory-service/src/messaging) and the audit service as one system whose steps interleave in
-- any order. A broker
-- hands a message that it was given to its consumer any number of times, or never.
use logistics_order_fulfillm.Prelude.{
  ℕ, String, ◌≡◌, Bool, true, false, some, List, [], ◌∷◌, ◌++◌, map,
}
use logistics_order_fulfillm.Contracts.Schema.{OrderStatusChangedEvent, event_json, parse_event}
use logistics_order_fulfillm.OrderApi.Entities.{
  Platform, status_changed, reserve, ReserveStockPayload, ReserveStockItem, OutboxEntry,
}
use logistics_order_fulfillm.OrderApi.Store.{State, Ambient}
use logistics_order_fulfillm.OrderApi.Poller.{
  Attempt, Message, to_topic, to_exchange, PollerState, pending_batch, publish_entry,
}
use logistics_order_fulfillm.OrderApi.System.{Request, perform}
use logistics_order_fulfillm.Inventory.Entities
use logistics_order_fulfillm.EventLogs.Audit.{OrderStatusLog, record_event}
use logistics_order_fulfillm.Inventory.Entities.{ReservationSettlement}
use logistics_order_fulfillm.Inventory.Service.{reserve_stock, settle_reservation}
use logistics_order_fulfillm.Inventory.EventConsumer.{settlement_for}

pub record World (N : Type 0) : Type 0 where
  pub api : State N
  pub is_polling : Bool
  -- the entries that the running poll has found and not tried yet
  pub batch : List (OutboxEntry N)
  -- what the brokers have been handed, in order
  pub sent : List (Message N)
  pub inventory : Entities.Db
  -- the log of the audit service
  pub audit : List (OrderStatusLog N)

-- What the inventory reads of a `reserve_stock` message.
read_item : ReserveStockItem → Entities.ReserveStockItem
read_item item = record { sku = item.sku; qty = item.qty }

unfoldable pub read_input : ReserveStockPayload → Entities.ReserveStockInput
unfolding read_item
read_input p = record {
  trace_id = p.trace_id;
  order_id = p.order_id;
  items = map read_item p.items;
}

module _ {N : Type 0} where
  unfoldable pub poller_of : World N → PollerState N
  poller_of w = record { outbox = w.api.outbox; is_polling = w.is_polling; sent = w.sent }

  with_poller : PollerState N → List (OutboxEntry N) → World N → World N
  with_poller p rest w = record w {
    api = record w.api { db = record w.api.db { outbox = p.outbox } };
    sent = p.sent;
    batch = rest;
  }

  -- The world after the poller tried an entry.
  unfoldable pub publish_one :
      ℕ → (OutboxEntry N → Attempt) → OutboxEntry N → List (OutboxEntry N) → World N → World N
  unfolding poller_of with_poller
  publish_one now attempt entry rest w =
      with_poller (publish_entry now attempt entry (poller_of w)) rest w

  -- The message is among those that were handed over.
  abbrev pub IsAmong : Message N → List (Message N) → Type 0
  IsAmong m sent =
      (before : List (Message N)) × (after : List (Message N)) × (sent ≡ before ++ m ∷ after)

  -- A message that was handed to a broker before.
  abbrev pub WasSent : Message N → World N → Type 0
  WasSent m w = IsAmong m w.sent

pub data Step {N : Type 0} (pf : Platform N) (w : World N) : World N → Type 0 where
  -- A placement or a transition, whoever asks for it.
  request : (r : Request N) (amb : Ambient) → Step pf w (record w { api = perform pf r amb w.api })
  -- A tick of the interval, while no poll is running, whose query succeeds. A tick during a poll
  -- does nothing.
  tick :
      w.is_polling ≡ false
      → Step pf w (record w { is_polling = true; batch = pending_batch w.api.outbox })
  publish :
      (now : ℕ) (attempt : OutboxEntry N → Attempt) (entry : OutboxEntry N)
      (rest : List (OutboxEntry N))
      → w.batch ≡ entry ∷ rest
      → Step pf w (publish_one now attempt entry rest w)
  finish : w.batch ≡ [] → Step pf w (record w { is_polling = false })
  -- One attempt of the event consumer.
  settle :
      (topic key : String) (sent event : OrderStatusChangedEvent N) (target : ReservationSettlement)
      (fails : Bool)
      → WasSent (to_topic topic key (status_changed sent)) w
      → parse_event pf.js (event_json sent) ≡ some event
      → settlement_for event.new_status ≡ some target
      → Step pf w
          (record w { inventory = (settle_reservation event.order_id target fails w.inventory).1 })
  -- One delivery to the consumer of `reserve_stock`.
  take :
      (exchange key : String) (p : ReserveStockPayload) (uuid : ℕ → String) (fails : Bool)
      → WasSent (to_exchange exchange key (reserve p)) w
      → Step pf w (record w { inventory = (reserve_stock (read_input p) uuid fails w.inventory).1 })
  -- A delivery to the audit service that it records; one that throws changes nothing.
  log :
      (topic key : String) (sent event : OrderStatusChangedEvent N) (to_date : String → ℕ)
      (accepts : OrderStatusLog N → Bool) (rows : List (OrderStatusLog N))
      → WasSent (to_topic topic key (status_changed sent)) w
      → parse_event pf.js (event_json sent) ≡ some event
      → record_event pf.js to_date accepts event w.audit ≡ some rows
      → Step pf w (record w { audit = rows })

pub data Reach {N : Type 0} (pf : Platform N) (start : World N) : World N → Type 0 where
  here : Reach pf start start
  later : {v w : World N} → Reach pf start v → Step pf v w → Reach pf start w
