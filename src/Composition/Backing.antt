-- ===== src/Composition/Backing.antt =====
-- What the messages and the reservations owe to the history that the outbox records: a status
-- change is handed over, and a reservation settled, only after the outbox announced it.
use logistics_order_fulfillm.Composition.Batch.{All-oldest_first}
use logistics_order_fulfillm.OrderApi.History.{history, changes, history-append}
use logistics_order_fulfillm.Prelude.{
  String, ◌≡◌, refl, subst, Bool, true, List, [], ◌∷◌, ◌++◌, All, arith, eq_refl,
}
use mathlib.Core.List.{append_assoc}
use logistics_order_fulfillm.Prelude.Everywhere.{All-take, All-keep, All-imp}
use logistics_order_fulfillm.Contracts.Status.{OrderStatus, payment_confirmed, cancelled}
use logistics_order_fulfillm.OrderApi.Entities.{
  Payload, status_changed, reserve, notification, OutboxEntry,
}
use logistics_order_fulfillm.OrderApi.Consistency.{IsConsistent}
use logistics_order_fulfillm.OrderApi.Poller.{
  Message, to_topic, to_exchange, message, pending_batch, is_pending,
}
use logistics_order_fulfillm.Inventory.Entities.{ReservationState, reserved, committed, released}
use logistics_order_fulfillm.Composition.World.{World}
use logistics_order_fulfillm.Composition.Announced.{announced, says, says-append}

module _ {N : Type 0} where
  -- The status change of the payload is in the outbox.
  unfoldable pub backed : List (OutboxEntry N) → Payload N → Bool
  backed outbox (status_changed e) = announced e.order_id e.new_status outbox
  backed outbox (reserve p) = true
  backed outbox (notification p) = true

  unfoldable pub payload_of : Message N → Payload N
  payload_of (to_topic topic key p) = p
  payload_of (to_exchange exchange key p) = p

  -- The change that lets the inventory settle a reservation is in the outbox.
  abbrev pub justified : List (OutboxEntry N) → String → ReservationState → Bool
  justified outbox id reserved = true
  justified outbox id committed = announced id payment_confirmed outbox
  justified outbox id released = announced id cancelled outbox

  abbrev pub Justified : List (OutboxEntry N) → String → ReservationState → Type 0
  Justified outbox id state = justified outbox id state ≡ true

  abbrev pub Backed : List (OutboxEntry N) → Payload N → Type 0
  Backed outbox p = backed outbox p ≡ true

  pub record Inv (w : World N) : Type 0 where
    pub consistent : IsConsistent w.api.db
    pub queued : All (λ e. Backed w.api.outbox e.payload) w.batch
    pub handed : All (λ m. Backed w.api.outbox (payload_of m)) w.sent
    pub logged : All (λ row. announced row.order_id row.new_status w.api.outbox ≡ true) w.audit
    pub goods : All (λ r. Justified w.api.outbox r.order_id r.status) w.inventory.reservations

  abbrev pub Grows : List (OutboxEntry N) → List (OutboxEntry N) → Type 0
  Grows outbox outbox' =
      (id : String) (status : OrderStatus)
      → announced id status outbox ≡ true
      → announced id status outbox' ≡ true

  Backed-Grows :
      (o o' : List (OutboxEntry N)) → Grows o o' → (p : Payload N) → Backed o p → Backed o' p
  unfolding backed
  Backed-Grows o o' g (status_changed e) h = g e.order_id e.new_status h
  Backed-Grows o o' g (reserve p) h = h
  Backed-Grows o o' g (notification p) h = h

  pub Justified-Grows :
      (o o' : List (OutboxEntry N))
      → Grows o o'
      → (id : String) (state : ReservationState) → Justified o id state
      → Justified o' id state
  Justified-Grows o o' g id reserved h = h
  Justified-Grows o o' g id committed h = g id payment_confirmed h
  Justified-Grows o o' g id released h = g id cancelled h

  -- The three lists, over an outbox that has grown.
  pub grown :
      (w : World N) (o' : List (OutboxEntry N))
      → Grows w.api.outbox o'
      → Inv w
      → All (λ e. Backed o' e.payload) w.batch
        × All (λ m. Backed o' (payload_of m)) w.sent
        × All (λ r. Justified o' r.order_id r.status) w.inventory.reservations
        × All (λ row. announced row.order_id row.new_status o' ≡ true) w.audit
  grown w o' g v = (
    All-imp _ _ w.batch (λ e. Backed-Grows w.api.outbox o' g e.payload) v.queued,
    All-imp _ _ w.sent (λ m. Backed-Grows w.api.outbox o' g (payload_of m)) v.handed,
    All-imp _ _ w.inventory.reservations
        (λ r. Justified-Grows w.api.outbox o' g r.order_id r.status) v.goods,
    All-imp _ _ w.audit (λ row. g row.order_id row.new_status) v.logged,
  )

  entry-Backed :
      (done rest : List (OutboxEntry N)) (e : OutboxEntry N) (p : Payload N)
      → e.payload ≡ p
      → Backed (done ++ e ∷ rest) p
  unfolding backed
  entry-Backed done rest e (status_changed event) h =
      let here : says event.new_status (history event.order_id (e ∷ rest)) ≡ true =
        unfold history in rw h (unfold changes in ground (arith, eq_refl event.order_id)) in
      rw
        (
          history-append event.order_id done (e ∷ rest),
          says-append event.new_status (history event.order_id done),
          here,
        )
        (ground arith)
  entry-Backed done rest e (reserve p) h = refl
  entry-Backed done rest e (notification p) h = refl

  outbox-Backed :
      (done rest : List (OutboxEntry N)) → All (λ e. Backed (done ++ rest) e.payload) rest
  outbox-Backed done [] = tt
  outbox-Backed done (e ∷ rest) = (
    entry-Backed done rest e e.payload refl,
    subst (λ o. All (λ e. Backed o e.payload) rest) (append_assoc done (e ∷ []) rest)
        (outbox-Backed (done ++ e ∷ []) rest),
  )

  pub batch-Backed :
      (outbox : List (OutboxEntry N)) → All (λ e. Backed outbox e.payload) (pending_batch outbox)
  unfolding pending_batch
  batch-Backed outbox =
      All-take (λ e. Backed outbox e.payload) 50 _
        (All-oldest_first (λ e. Backed outbox e.payload) _
          (All-keep (λ e. Backed outbox e.payload) is_pending outbox (outbox-Backed [] outbox)))

  pub payload-message : (entry : OutboxEntry N) → payload_of (message entry) ≡ entry.payload
  unfolding payload_of message
  payload-message entry = ground arith
