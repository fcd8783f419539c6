-- ===== src/OrderApi/Cancellation.antt =====
-- The two ways in which the order API cancels an order by itself: the payment timeout and a result
-- of insufficient stock (apps/order-api/src/jobs/payment-timeout.processor.ts,
-- apps/order-api/src/orders/reply-queue.consumer.ts).
use logistics_order_fulfillm.Prelude.{
  String, ◌≡◌, ◌≢◌, refl, false, none, some, List, [], ◌∷◌, Result, ok, err,
}
use logistics_order_fulfillm.Prelude.Table
use logistics_order_fulfillm.Contracts.Status.{OrderStatus, placed, cancelled}
use logistics_order_fulfillm.Contracts.Delivery.{
  ConsumeMessage, ReservationStatus, ack, IsSettled, done, rerouted, retry_later, UnavailableItem,
  insufficient_stock, reserved, StockReservationResult,
}
use logistics_order_fulfillm.OrderApi.StateMachine.{can_transition}
use logistics_order_fulfillm.OrderApi.Entities.{Platform, Order, OrderRow, PaymentTimeoutJobData}
use logistics_order_fulfillm.OrderApi.Store.{
  State, Ambient, OrderError, not_found, invalid_transition,
}
use logistics_order_fulfillm.OrderApi.Service.{transition}
use logistics_order_fulfillm.OrderApi.Outcomes.{transition-refused}
use logistics_order_fulfillm.OrderApi.Jobs.{process_payment_timeout}
use logistics_order_fulfillm.OrderApi.ReplyQueue.{
  ReplyBody, malformed, null_body, payload, short_of_other, other_status, handle, on_body,
  on_result, after_cancel,
}

not_cancellable : (from : OrderStatus) → from ≢ placed → can_transition from cancelled ≡ false
unfolding can_transition
not_cancellable placed n = absurd (n refl)
not_cancellable _ n = refl

module _ {N : Type 0} (pf : Platform N) where
  refused_unless_placed :
      (id : String) (amb : Ambient) (s : State N) (row : OrderRow)
      → amb.database_fails ≡ false
      → Table.find (λ r. r.id) id s.orders ≡ some row
      → row.status ≢ placed
      → transition pf id cancelled amb s ≡ (err (invalid_transition row.status cancelled), s)
  refused_unless_placed id amb s row up found n =
      transition-refused pf id cancelled amb s (invalid_transition row.status cancelled) up
        (rw found (rw (not_cancellable row.status n)))

  -- With a database that answers, the payment timeout of an order that is stored and not PLACED
  -- ends without an error and changes nothing.
  pub process_payment_timeout-noop :
      (job : PaymentTimeoutJobData) (amb : Ambient) (s : State N) (row : OrderRow)
      → amb.database_fails ≡ false
      → Table.find (λ r. r.id) job.order_id s.orders ≡ some row
      → row.status ≢ placed
      → process_payment_timeout pf job amb s ≡ (none, s)
  unfolding process_payment_timeout
  process_payment_timeout-noop job amb s row up found n =
      rw (refused_unless_placed job.order_id amb s row up found n)

  -- With a database that answers, a result of insufficient stock for an order that is stored and
  -- not PLACED is acknowledged, and changes nothing.
  pub handle-stale :
      (parse : String → ReplyBody)
      (transition_other : Ambient → State N → Result OrderError Order × State N)
      (msg : ConsumeMessage) (result : StockReservationResult) (items : List UnavailableItem)
      (amb : Ambient) (s : State N) (row : OrderRow)
      → parse msg.content ≡ payload result
      → result.status ≡ insufficient_stock items
      → amb.database_fails ≡ false
      → Table.find (λ r. r.id) result.order_id s.orders ≡ some row
      → row.status ≢ placed
      → handle parse pf transition_other (some msg) amb s
        ≡ record { state = s; actions = ack ∷ []; uncaught = false }
  unfolding handle on_body on_result after_cancel
  handle-stale parse transition_other msg result items amb s row parsed short up found n =
      rw (parsed, short, refused_unless_placed result.order_id amb s row up found n)

  after_cancel-IsSettled :
      (msg : ConsumeMessage) (r : Result OrderError Order × State N)
      → IsSettled msg (after_cancel msg r).actions
  unfolding after_cancel retry_later
  after_cancel-IsSettled msg (ok order, s) = done
  after_cancel-IsSettled msg (err (invalid_transition from to), s) = done
  after_cancel-IsSettled msg (err (not_found id), s) = done
  after_cancel-IsSettled msg (err e, s) = rerouted _

  on_result-IsSettled :
      (result : StockReservationResult) (status : ReservationStatus) (msg : ConsumeMessage)
      (amb : Ambient) (s : State N)
      → IsSettled msg (on_result pf result status msg amb s).actions
  unfolding on_result
  on_result-IsSettled result (insufficient_stock items) msg amb s =
      after_cancel-IsSettled msg (transition pf result.order_id cancelled amb s)
  on_result-IsSettled result reserved msg amb s = done

  on_body-IsSettled :
      (transition_other : Ambient → State N → Result OrderError Order × State N) (body : ReplyBody)
      (msg : ConsumeMessage) (amb : Ambient) (s : State N)
      → body ≢ null_body
      → IsSettled msg (on_body pf transition_other body msg amb s).actions
  unfolding on_body
  on_body-IsSettled transition_other malformed msg amb s n = done
  on_body-IsSettled transition_other null_body msg amb s n = absurd (n refl)
  on_body-IsSettled transition_other (payload result) msg amb s n =
      on_result-IsSettled result result.status msg amb s
  on_body-IsSettled transition_other short_of_other msg amb s n =
      after_cancel-IsSettled msg (transition_other amb s)
  on_body-IsSettled transition_other other_status msg amb s n = done

  -- A reservation result whose body is not the JSON value `null` is acknowledged as the last act
  -- of its handling, after at most one copy of it was routed on.
  pub handle-IsSettled :
      (parse : String → ReplyBody)
      (transition_other : Ambient → State N → Result OrderError Order × State N)
      (msg : ConsumeMessage) (amb : Ambient) (s : State N)
      → parse msg.content ≢ null_body
      → IsSettled msg (handle parse pf transition_other (some msg) amb s).actions
  unfolding handle
  handle-IsSettled parse transition_other msg amb s n =
      on_body-IsSettled transition_other (parse msg.content) msg amb s n
