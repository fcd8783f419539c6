-- ===== src/Inventory/ReserveConsumer.antt =====
-- apps/inventory-service/src/messaging/reserve-stock.consumer.ts, with `publishStockReservationResult`
-- of rabbitmq-producer.service.ts.
use logistics_order_fulfillm.Prelude.{
  ℕ, String, Bool, true, false, Option, none, some, List, [], ◌∷◌, ◌++◌, ok, err, if◌then◌else◌,
}
use logistics_order_fulfillm.Contracts.Topology.{reserve_stock}
use logistics_order_fulfillm.Contracts.Delivery.{
  ConsumeMessage, Body, malformed, null_body, payload, ack, send_to_queue, Handled, retry_later,
  StockReservationResult,
}
use logistics_order_fulfillm.Inventory.Entities.{Db, ReserveStockInput}
use logistics_order_fulfillm.Inventory.Service
use logistics_order_fulfillm.Inventory.Service.{Outcome}

-- The tables, and the results that were put into the reply queue, in order.
pub record State : Type 0 where
  pub db : Db
  pub replies : List StockReservationResult

-- What a delivery meets: the uuids of the new rows, a database that fails, a reply that is refused.
pub record Ambient : Type 0 where
  pub uuid : ℕ → String
  pub database_fails : Bool
  pub reply_fails : Bool

-- The rest of the `try` after `reserveStock`, and the `catch`.
unfoldable pub after_reserve :
    ConsumeMessage → Ambient → State → Outcome StockReservationResult → Handled State
after_reserve msg amb s (err e, db) = record {
  state = record s { db = db };
  actions = retry_later reserve_stock.config msg;
  uncaught = false;
}
after_reserve msg amb s (ok result, db) =
    if amb.reply_fails
    then record {
      state = record s { db = db };
      actions = retry_later reserve_stock.config msg;
      uncaught = false;
    }
    else record {
      state = record { db = db; replies = s.replies ++ result ∷ [] };
      actions = ack ∷ [];
      uncaught = false;
    }

-- The value `null` throws at `payload.trace_id`, and again in the `catch`, at `payload.order_id`.
unfoldable pub on_body : Body ReserveStockInput → ConsumeMessage → Ambient → State → Handled State
on_body malformed msg amb s = record {
  state = s;
  actions = send_to_queue reserve_stock.config.dlq msg.content ∷ ack ∷ [];
  uncaught = false;
}
on_body null_body msg amb s = record { state = s; actions = []; uncaught = true }
on_body (payload input) msg amb s =
    after_reserve msg amb s (Service.reserve_stock input amb.uuid amb.database_fails s.db)

unfoldable pub handle :
    (String → Body ReserveStockInput) → Option ConsumeMessage → Ambient → State → Handled State
unfolding on_body after_reserve
handle parse none amb s = record { state = s; actions = []; uncaught = false }
handle parse (some msg) amb s = on_body (parse msg.content) msg amb s
