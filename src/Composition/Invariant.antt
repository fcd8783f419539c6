-- ===== src/Composition/Invariant.antt =====
-- The invariant of the services together: a reservation is settled only after the outbox announced
-- the change of status that asks for it.
use logistics_order_fulfillm.Composition.Backing.{
  Justified, backed, Inv, Grows, grown, Backed, batch-Backed, payload_of, payload-message,
}
use logistics_order_fulfillm.OrderApi.History.{history}
use logistics_order_fulfillm.Prelude.{
  ℕ, String, ◌≡◌, refl, subst, true, some, List, [], ◌∷◌, All, arith, inl, inr,
}
use logistics_order_fulfillm.Prelude.Everywhere.{All-append, All-middle}
use logistics_order_fulfillm.Contracts.Status.{OrderStatus, payment_confirmed, cancelled, same}
use logistics_order_fulfillm.Contracts.Schema.{OrderStatusChangedEvent, event_json, parse_event}
use logistics_order_fulfillm.Contracts.RoundTrip.{parse_event-event_json}
use logistics_order_fulfillm.OrderApi.Entities.{Platform, status_changed, OutboxEntry}
use logistics_order_fulfillm.OrderApi.System.{perform-IsConsistent, perform}
use logistics_order_fulfillm.OrderApi.Poller.{
  Attempt, to_topic, message, publish_entry, PollerState, Message,
}
use logistics_order_fulfillm.Inventory.Entities.{
  commit, release, target_status, ReservationSettlement,
}
use logistics_order_fulfillm.Inventory.EventConsumer.{settlement_for}
use logistics_order_fulfillm.EventLogs.Audit.{log_of}
use logistics_order_fulfillm.Composition.Logged.{All-record_event}
use logistics_order_fulfillm.Composition.Batch.{publish_cases}
use logistics_order_fulfillm.Composition.World.{
  log, World, Step, Reach, here, later, request, tick, publish, finish, settle, take, publish_one,
  read_input, IsAmong,
}
use logistics_order_fulfillm.Composition.Announced.{
  announced, announced-perform, history-mark_published,
}
use logistics_order_fulfillm.Composition.Goods.{reserve_stock-Holds, settle_reservation-Holds}

module _ {N : Type 0} (pf : Platform N) where
  by_target :
      (o : List (OutboxEntry N)) (id : String) (status : OrderStatus)
      (target : ReservationSettlement)
      → announced id status o ≡ true
      → settlement_for status ≡ some target
      → Justified o id (target_status target)
  unfolding settlement_for
  by_target o id payment_confirmed commit b acts = b
  by_target o id cancelled release b acts = b
  by_target o id _ target b acts = absurd (ground arith)

  -- An event that was handed over was announced, and so is what a consumer reads of it.
  event_announced :
      (o : List (OutboxEntry N)) (messages : List (Message N)) (topic key : String)
      (sent event : OrderStatusChangedEvent N)
      → All (λ m. Backed o (payload_of m)) messages
      → IsAmong (to_topic topic key (status_changed sent)) messages
      → parse_event pf.js (event_json sent) ≡ some event
      → announced event.order_id event.new_status o ≡ true
  unfolding backed payload_of
  event_announced o messages topic key sent event handed (before, after, split) parsed =
      let b =
        All-middle (λ m. Backed o (payload_of m)) before (to_topic topic key (status_changed sent))
          after (rw split at handed) in
      let same_event : sent ≡ event = ground (arith, parse_event-event_json pf.js sent) in
      subst (λ (e : OrderStatusChangedEvent N). announced e.order_id e.new_status o ≡ true)
        same_event b

  -- The outbox after an entry was tried records the same history.
  publish_history :
      (now : ℕ) (attempt : OutboxEntry N → Attempt) (e : OutboxEntry N) (p : PollerState N)
      (id : String)
      → history id (publish_entry now attempt e p).outbox ≡ history id p.outbox
  publish_history now attempt e p id = elim (publish_cases now attempt e p) [
    | inl (same, unsent) ↦ rw same
    | inr (inl (same, sent)) ↦ rw same
    | inr (inr (marked, sent)) ↦ rw marked (history-mark_published now e.id id p.outbox)
  ]

  publish-Inv :
      (now : ℕ) (attempt : OutboxEntry N → Attempt) (e : OutboxEntry N)
      (rest : List (OutboxEntry N)) (w : World N)
      → w.batch ≡ e ∷ rest
      → Inv w
      → Inv (publish_one now attempt e rest w)
  unfolding publish_one
  publish-Inv now attempt e rest w found v =
      let p : PollerState N = record {
        outbox = w.api.outbox;
        is_polling = w.is_polling;
        sent = w.sent;
      } in
      let p' = publish_entry now attempt e p in
      let same_history = publish_history now attempt e p in
      let g : Grows w.api.outbox p'.outbox = λ id status h. rw (same_history id) h in
      let (queued, handed, goods, logged) = grown w p'.outbox g v in
      let both : All (λ d. Backed p'.outbox d.payload) (e ∷ rest) = rw found at queued in
      let more =
        All-append (λ m. Backed p'.outbox (payload_of m)) w.sent (message e ∷ []) handed
          (rw (payload-message e) both.0, tt) in
      let sent_backed : All (λ m. Backed p'.outbox (payload_of m)) p'.sent =
        elim (publish_cases now attempt e p) [
          | inl (o, unsent) ↦ rw unsent handed
          | inr (inl (o, sent)) ↦ rw sent more
          | inr (inr (o, sent)) ↦ rw sent more
        ] in
      record {
        consistent = λ id. rw (same_history id) (v.consistent id);
        queued = both.1;
        handed = sent_backed;
        goods = goods;
        logged = logged;
      }

  Step-Inv : {v w : World N} → Step pf v w → Inv v → Inv w
  Step-Inv {v} (request r amb) i =
      let (queued, handed, goods, logged) =
        grown v (perform pf r amb v.api).outbox
          (λ id status. announced-perform pf id status r amb v.api) i in
      record {
        consistent = perform-IsConsistent pf r amb v.api i.consistent;
        queued = queued;
        handed = handed;
        goods = goods;
        logged = logged;
      }
  Step-Inv {v} (tick idle) i = record {
    consistent = i.consistent;
    queued = batch-Backed v.api.outbox;
    handed = i.handed;
    goods = i.goods;
    logged = i.logged;
  }
  Step-Inv {v} (publish now attempt entry rest found) i =
      publish-Inv now attempt entry rest v found i
  Step-Inv {v} (finish empty) i = record {
    consistent = i.consistent;
    queued = i.queued;
    handed = i.handed;
    goods = i.goods;
    logged = i.logged;
  }
  Step-Inv {v} (settle topic key sent event target fails was_sent parsed acts) i = record {
    consistent = i.consistent;
    queued = i.queued;
    handed = i.handed;
    logged = i.logged;
    goods =
        settle_reservation-Holds (Justified v.api.outbox) (λ id. refl) event.order_id target
          (by_target v.api.outbox event.order_id event.new_status target
            (event_announced v.api.outbox v.sent topic key sent event i.handed was_sent parsed)
            acts)
          fails v.inventory i.goods;
  }
  Step-Inv {v} (take exchange key p uuid fails was_sent) i = record {
    consistent = i.consistent;
    queued = i.queued;
    handed = i.handed;
    logged = i.logged;
    goods =
        reserve_stock-Holds (Justified v.api.outbox) (λ id. refl) (read_input p) uuid fails
          v.inventory i.goods;
  }
  Step-Inv {v} (log topic key sent event to_date accepts rows was_sent parsed recorded) i = record {
    consistent = i.consistent;
    queued = i.queued;
    handed = i.handed;
    goods = i.goods;
    logged =
        All-record_event pf.js to_date accepts
          (λ row. announced row.order_id row.new_status v.api.outbox ≡ true) event v.audit rows
          recorded
          (unfold log_of in
            event_announced v.api.outbox v.sent topic key sent event i.handed was_sent parsed)
          i.logged;
  }

  pub Reach-Inv : {v w : World N} → Inv v → Reach pf v w → Inv w
  Reach-Inv i here = i
  Reach-Inv i (later r step) = Step-Inv step (Reach-Inv i r)
