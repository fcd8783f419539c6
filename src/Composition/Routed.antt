-- ===== src/Composition/Routed.antt =====
-- That no message is handed to a broker which has nobody to give it to
-- (apps/order-api/src/orders/orders.service.ts, apps/order-api/src/jobs/outbox-poller.service.ts,
-- src/messaging of the services that consume).
use logistics_order_fulfillm.Prelude.{
  All, List, String, [], arith, eq_iff, refl, subst, true, ℕ, ◌∷◌, ◌≡◌, inl, inr,
}
use logistics_order_fulfillm.Prelude.Everywhere.{All-append, All-keep, All-take}
use logistics_order_fulfillm.Composition.Batch.{All-oldest_first, publish_cases}
use logistics_order_fulfillm.OrderApi.Poller.{
  Attempt, Message, PollerState, is_pending, message, pending_batch, to_exchange, to_topic,
}
use logistics_order_fulfillm.Rabbit.Setup.{
  Service, Command, assert_topology, bind_queue, consumed, inventory, inventory_setup,
  notification_setup, setup,
}
use logistics_order_fulfillm.Composition.Sound.{
  IsSound, Step-IsSound, fresh-IsSound, perform-IsSound,
}
use logistics_order_fulfillm.OrderApi.Entities.{
  OutboxChannel, OutboxEntry, Payload, Platform, kafka, notification, rabbitmq, reserve,
  status_changed,
}
use logistics_order_fulfillm.Composition.World.{
  Reach, Step, World, finish, here, later, log, publish, publish_one, request, settle, take, tick,
}
use logistics_order_fulfillm.Contracts.Schema.{event_ok}
use logistics_order_fulfillm.OrderApi.Writes.{is_sound}
use logistics_order_fulfillm.Contracts.Topology.{
  reserve_stock, notify, order_status_changed_topic, rabbitmq_exchange,
}

-- The queue is bound to the exchange with this routing key.
pub data IsBound (q exchange key : String) : List Command → Type 0 where
  bound : {rest : List Command} → IsBound q exchange key (bind_queue q exchange key ∷ rest)
  beyond :
      {c : Command} {rest : List Command}
      → IsBound q exchange key rest
      → IsBound q exchange key (c ∷ rest)

reserve_stock-IsBound :
    IsBound reserve_stock.queue rabbitmq_exchange reserve_stock.routing_key (setup inventory)
unfolding inventory_setup assert_topology
reserve_stock-IsBound = beyond (beyond bound)

notify-IsBound :
    IsBound notify.queue rabbitmq_exchange notify.routing_key (setup Service.notification)
unfolding notification_setup assert_topology
notify-IsBound = beyond (beyond bound)

module _ {N : Type 0} (pf : Platform N) where
  -- A message in the form, and at the place, that its consumer expects.
  abbrev pub Routed : Message N → Type 0
  Routed (to_topic topic key (status_changed e)) =
      (topic ≡ order_status_changed_topic) × (key ≡ e.order_id) × (event_ok pf.js e ≡ true)
  Routed (to_topic topic key (reserve p)) = ⊥
  Routed (to_topic topic key (notification p)) = ⊥
  Routed (to_exchange exchange key (status_changed e)) = ⊥
  Routed (to_exchange exchange key (reserve p)) =
      IsBound (consumed inventory).queue exchange key (setup inventory)
  Routed (to_exchange exchange key (notification p)) =
      IsBound (consumed Service.notification).queue exchange key (setup Service.notification)

  abbrev RowSound : OutboxEntry N → Type 0
  RowSound e = is_sound pf e.channel e.routing_key e.payload ≡ true

  message-Routed :
      (e : OutboxEntry N) (channel : OutboxChannel) (key : String) (p : Payload N)
      → e.channel ≡ channel
      → e.routing_key ≡ key
      → e.payload ≡ p
      → is_sound pf channel key p ≡ true
      → Routed (message e)
  unfolding message
  message-Routed e kafka key (status_changed event) via at what sound =
      subst Routed {x = to_topic key event.order_id (status_changed event)} (ground arith)
        (ground (arith, eq_iff key order_status_changed_topic), refl, ground arith)
  message-Routed e kafka key (reserve p) via at what sound = absurd (ground arith)
  message-Routed e kafka key (notification p) via at what sound = absurd (ground arith)
  message-Routed e rabbitmq key (status_changed event) via at what sound = absurd (ground arith)
  message-Routed e rabbitmq key (reserve p) via at what sound =
      let own : key ≡ reserve_stock.routing_key =
        ground (arith, eq_iff key reserve_stock.routing_key) in
      subst Routed {x = to_exchange rabbitmq_exchange key (reserve p)} (ground arith)
        (rw own reserve_stock-IsBound)
  message-Routed e rabbitmq key (notification p) via at what sound =
      let own : key ≡ notify.routing_key = ground (arith, eq_iff key notify.routing_key) in
      subst Routed {x = to_exchange rabbitmq_exchange key (notification p)} (ground arith)
        (rw own notify-IsBound)

  record IsRouted (w : World N) : Type 0 where
    rows : IsSound pf w.api.db
    queued : All RowSound w.batch
    handed : All Routed w.sent

  publish-IsRouted :
      (now : ℕ) (attempt : OutboxEntry N → Attempt) (e : OutboxEntry N)
      (rest : List (OutboxEntry N)) (w : World N)
      → IsSound pf (publish_one now attempt e rest w).api.db
      → All RowSound (e ∷ rest)
      → All Routed w.sent
      → IsRouted (publish_one now attempt e rest w)
  unfolding publish_one
  publish-IsRouted now attempt e rest w sound queued handed =
      let p : PollerState N = record {
        outbox = w.api.outbox;
        is_polling = w.is_polling;
        sent = w.sent;
      } in
      let more =
        All-append Routed w.sent (message e ∷ []) handed
          (message-Routed e e.channel e.routing_key e.payload refl refl refl queued.0, tt) in
      record {
        rows = sound;
        queued = queued.1;
        handed = elim (publish_cases now attempt e p) [
          | inl (o, s) ↦ rw s handed
          | inr (inl (o, s)) ↦ rw s more
          | inr (inr (o, s)) ↦ rw s more
        ];
      }

  Step-IsRouted : {v w : World N} → Step pf v w → IsRouted v → IsRouted w
  unfolding pending_batch
  Step-IsRouted {v} (request r amb) k = record {
    rows = perform-IsSound pf r amb v.api k.rows;
    queued = k.queued;
    handed = k.handed;
  }
  Step-IsRouted {v} (tick idle) k = record {
    rows = k.rows;
    queued =
        All-take RowSound 50 _
          (All-oldest_first RowSound _ (All-keep RowSound is_pending v.api.outbox k.rows.rows));
    handed = k.handed;
  }
  Step-IsRouted {v} (publish now attempt entry rest found) k =
      publish-IsRouted now attempt entry rest v
        (Step-IsSound pf (publish now attempt entry rest found) k.rows)
        (subst (All RowSound) found k.queued) k.handed
  Step-IsRouted (finish empty) k = record { rows = k.rows; queued = k.queued; handed = k.handed }
  Step-IsRouted (settle topic key sent event target fails was_sent parsed acts) k = record {
    rows = k.rows;
    queued = k.queued;
    handed = k.handed;
  }
  Step-IsRouted (take exchange key p uuid fails was_sent) k = record {
    rows = k.rows;
    queued = k.queued;
    handed = k.handed;
  }
  Step-IsRouted (log topic key sent event to_date accepts rows was_sent parsed recorded) k =
      record { rows = k.rows; queued = k.queued; handed = k.handed }

  Reach-IsRouted : {v w : World N} → IsRouted v → Reach pf v w → IsRouted w
  Reach-IsRouted k here = k
  Reach-IsRouted k (later r step) = Step-IsRouted step (Reach-IsRouted k r)

-- From an empty outbox, an empty batch and nothing handed over, after any steps of the services,
-- in any order and with any failures, each message that a broker was handed is one of three: on
-- the topic of the status changes, an event that the schema accepts, with its order's id as its
-- key; or, with an exchange and a routing key which the setup of the inventory service binds to
-- the queue that it consumes, a command to reserve stock; or, with those which the setup of the
-- notification service binds to the queue that it consumes, a notification.
pub Reach-Routed :
    {N : Type 0} (pf : Platform N) (start w : World N)
    → start.api.outbox ≡ []
    → start.batch ≡ []
    → start.sent ≡ []
    → Reach pf start w
    → All (Routed pf) w.sent
Reach-Routed pf start w no_rows no_batch nothing_sent run =
    (Reach-IsRouted pf
      (record {
        rows = fresh-IsSound pf start.api.db no_rows;
        queued = rw no_batch tt;
        handed = rw nothing_sent tt;
      })
      run).handed
