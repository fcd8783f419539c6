-- ===== src/Inventory/Replies.antt =====
-- What becomes of a `reserve_stock` message
-- (apps/inventory-service/src/messaging/reserve-stock.consumer.ts).
use logistics_order_fulfillm.Prelude.{
  ℕ, String, ◌≡◌, ◌≢◌, refl, Bool, true, false, some, List, [], ◌∷◌, ◌++◌, ok, err, arith, ◌∙◌,
  Bool-cases, inl, inr,
}
use logistics_order_fulfillm.Contracts.Delivery.{
  ConsumeMessage, Body, malformed, null_body, payload, ack, retry_later, StockReservationResult,
  IsSettled, done, rerouted, reserved,
}
use logistics_order_fulfillm.Inventory.Entities.{Db, ReserveStockInput}
use logistics_order_fulfillm.Inventory.Service.{Outcome, result_of, reserve_stock}
use logistics_order_fulfillm.Inventory.Reserve.{reserve_stock-again}
use logistics_order_fulfillm.Inventory.ReserveConsumer.{
  State, Ambient, after_reserve, on_body, handle,
}

after_reserve-IsSettled :
    (msg : ConsumeMessage) (amb : Ambient) (s : State) (r : Outcome StockReservationResult)
    → IsSettled msg (after_reserve msg amb s r).actions
unfolding after_reserve retry_later
after_reserve-IsSettled msg amb s (err e, db) = rerouted _
after_reserve-IsSettled msg amb s (ok result, db) = by_reply amb.reply_fails
  where
    by_reply :
        (fails : Bool)
        → IsSettled msg
            (after_reserve msg (record amb { reply_fails = fails }) s (ok result, db)).actions
    by_reply true = rerouted _
    by_reply false = done

on_body-IsSettled :
    (body : Body ReserveStockInput) (msg : ConsumeMessage) (amb : Ambient) (s : State)
    → body ≢ null_body
    → IsSettled msg (on_body body msg amb s).actions
unfolding on_body
on_body-IsSettled malformed msg amb s n = rerouted _
on_body-IsSettled null_body msg amb s n = absurd (n refl)
on_body-IsSettled (payload input) msg amb s n = after_reserve-IsSettled msg amb s _

-- A `reserve_stock` message whose body is not the JSON value `null` is acknowledged as the last
-- act of its handling, after at most one copy of it was routed on.
pub handle_reserve-IsSettled :
    (parse : String → Body ReserveStockInput) (msg : ConsumeMessage) (amb : Ambient) (s : State)
    → parse msg.content ≢ null_body
    → IsSettled msg (handle parse (some msg) amb s).actions
unfolding handle
handle_reserve-IsSettled parse msg amb s n = on_body-IsSettled (parse msg.content) msg amb s n

-- One message that is delivered once and again.
abbrev pub deliveries :
    (String → Body ReserveStockInput) → ConsumeMessage → List Ambient → State → State
deliveries parse msg [] s = s
deliveries parse msg (amb ∷ ambs) s =
    deliveries parse msg ambs (handle parse (some msg) amb s).state

module _ (parse : String → Body ReserveStockInput) (msg : ConsumeMessage)
    (input : ReserveStockInput) (parsed : parse msg.content ≡ payload input) (uuid : ℕ → String)
    (before : Db) where
  reserve_stock-kept :
      (amb : Ambient) (db : Db)
      → reserve_stock input uuid false before ≡ (ok (result_of input reserved), db)
      → (reserve_stock input amb.uuid amb.database_fails db).1 ≡ db
  reserve_stock-kept amb db first = elim (Bool-cases amb.database_fails) [
    | inl down ↦ unfold reserve_stock in rw down
    | inr up ↦ simp (up, reserve_stock-again input uuid amb.uuid before db first)
  ]

  after_reserve-db :
      (amb : Ambient) (s : State) (r : Outcome StockReservationResult)
      → (after_reserve msg amb s r).state.db ≡ r.1
  unfolding after_reserve
  after_reserve-db amb s (ok result, db) = ground arith
  after_reserve-db amb s (err e, db) = refl

  handle-kept :
      (amb : Ambient) (s : State)
      → reserve_stock input uuid false before ≡ (ok (result_of input reserved), s.db)
      → (handle parse (some msg) amb s).state.db ≡ s.db
  unfolding handle on_body
  handle-kept amb s first = rw parsed (
      after_reserve-db amb s (reserve_stock input amb.uuid amb.database_fails s.db)
      ∙ reserve_stock-kept amb s.db first)

  deliveries-db :
      (ambs : List Ambient) (s : State)
      → reserve_stock input uuid false before ≡ (ok (result_of input reserved), s.db)
      → (deliveries parse msg ambs s).db ≡ s.db
  deliveries-db [] s first = refl
  deliveries-db (amb ∷ ambs) s first =
      let kept = handle-kept amb s first in
      deliveries-db ambs (handle parse (some msg) amb s).state (rw (kept, first)) ∙ kept

  -- Once a message's order was answered RESERVED, any further deliveries of the message, whichever
  -- of them fail, keep the tables as they are, and a delivery that does not fail then puts
  -- RESERVED into the reply queue and acknowledges the message.
  pub deliveries-once :
      (ambs : List Ambient) (amb : Ambient) (s : State)
      → reserve_stock input uuid false before ≡ (ok (result_of input reserved), s.db)
      → amb.database_fails ≡ false
      → amb.reply_fails ≡ false
      → let s' = deliveries parse msg ambs s in
        (s'.db ≡ s.db)
        × (handle parse (some msg) amb s' ≡ record {
          state = record { db = s.db; replies = s'.replies ++ result_of input reserved ∷ [] };
          actions = ack ∷ [];
          uncaught = false;
        })
  unfolding handle on_body after_reserve
  deliveries-once ambs amb s first up heard =
      let kept = deliveries-db ambs s first in
      (
        kept,
        rw (parsed, kept)
            (simp (up, heard, reserve_stock-again input uuid amb.uuid before s.db first)),
      )
