-- ===== src/OrderApi/ReplyQueue.antt =====
-- apps/order-api/src/orders/reply-queue.consumer.ts
use logistics_order_fulfillm.Prelude.{
  String, true, false, Option, none, some, [], ◌∷◌, Result, ok, err,
}
use logistics_order_fulfillm.Contracts.Status.{cancelled}
use logistics_order_fulfillm.Contracts.Topology.{stock_reservation_results}
use logistics_order_fulfillm.Contracts.Delivery.{
  ConsumeMessage, ack, Handled, retry_later, ReservationStatus, reserved, insufficient_stock,
  StockReservationResult,
}
use logistics_order_fulfillm.OrderApi.Entities.{Platform, Order}
use logistics_order_fulfillm.OrderApi.Store.{
  State, Ambient, OrderError, not_found, invalid_transition,
}
use logistics_order_fulfillm.OrderApi.Service.{transition}

-- What `JSON.parse` makes of the content: a text that is no JSON, the value `null`, a result with
-- the fields of its type whose order_id is a uuid, a value with the status INSUFFICIENT_STOCK and
-- another order_id or none, or any other value, whose status is another.
pub data ReplyBody : Type 0 where
  malformed null_body : ReplyBody
  payload : StockReservationResult → ReplyBody
  short_of_other : ReplyBody
  other_status : ReplyBody

module _ {N : Type 0} where
  -- The `catch`: a stale or duplicate result and an unknown order are dropped, any other failure is
  -- routed to the next stage.
  unfoldable pub after_cancel :
      ConsumeMessage → Result OrderError Order × State N → Handled (State N)
  after_cancel msg (ok order, s) = record { state = s; actions = ack ∷ []; uncaught = false }
  after_cancel msg (err (invalid_transition from to), s) = record {
    state = s;
    actions = ack ∷ [];
    uncaught = false;
  }
  after_cancel msg (err (not_found id), s) = record {
    state = s;
    actions = ack ∷ [];
    uncaught = false;
  }
  after_cancel msg (err e, s) = record {
    state = s;
    actions = retry_later stock_reservation_results.config msg;
    uncaught = false;
  }

  unfoldable pub on_result :
      Platform N
      → StockReservationResult
      → ReservationStatus
      → ConsumeMessage
      → Ambient
      → State N
      → Handled (State N)
  on_result pf result (insufficient_stock items) msg amb s =
      after_cancel msg (transition pf result.order_id cancelled amb s)
  on_result pf result reserved msg amb s = record {
    state = s;
    actions = ack ∷ [];
    uncaught = false;
  }

  -- The value `null` throws at `payload.status`, and again in the `catch`, at `payload.order_id`.
  -- `transition_other` is how the call of `transition` ends with an order_id that is no uuid, which
  -- TypeORM and PostgreSQL decide.
  unfoldable pub on_body :
      Platform N
      → (Ambient → State N → Result OrderError Order × State N)
      → ReplyBody
      → ConsumeMessage
      → Ambient
      → State N
      → Handled (State N)
  on_body pf transition_other malformed msg amb s = record {
    state = s;
    actions = ack ∷ [];
    uncaught = false;
  }
  on_body pf transition_other null_body msg amb s = record {
    state = s;
    actions = [];
    uncaught = true;
  }
  on_body pf transition_other (payload result) msg amb s =
      on_result pf result result.status msg amb s
  on_body pf transition_other short_of_other msg amb s = after_cancel msg (transition_other amb s)
  on_body pf transition_other other_status msg amb s = record {
    state = s;
    actions = ack ∷ [];
    uncaught = false;
  }

  unfoldable pub handle :
      (String → ReplyBody)
      → Platform N
      → (Ambient → State N → Result OrderError Order × State N)
      → Option ConsumeMessage
      → Ambient
      → State N
      → Handled (State N)
  handle parse pf transition_other none amb s = record { state = s; actions = []; uncaught = false }
  handle parse pf transition_other (some msg) amb s =
      on_body pf transition_other (parse msg.content) msg amb s
