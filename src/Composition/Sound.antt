-- ===== src/Composition/Sound.antt =====
-- What the outbox holds whatever the services do: unique ids of the sequence, and events that the
-- contract's schema accepts (apps/order-api/src/orders/orders.service.ts,
-- apps/order-api/src/jobs/outbox-poller.service.ts).
use logistics_order_fulfillm.Prelude.{
  All, List, String, [], arith, refl, true, ℕ, ◌++◌, ◌+◌, ◌<◌, ◌∷◌, ◌≡◌, inl, inr,
}
use logistics_order_fulfillm.Prelude.Everywhere.{All-append, All-imp}
use logistics_order_fulfillm.Composition.Batch.{All-mark, publish_cases}
use logistics_order_fulfillm.OrderApi.Store.{Db, Ambient, State, push_outbox, with_order, with_row}
use logistics_order_fulfillm.OrderApi.Poller.{Attempt, PollerState, mark_published}
use logistics_order_fulfillm.OrderApi.Drain.{HasKeys, occurs}
use logistics_order_fulfillm.OrderApi.Entities.{OutboxChannel, OutboxEntry, Payload, Platform}
use logistics_order_fulfillm.Composition.World.{
  Reach, Step, World, finish, here, later, log, publish, publish_one, request, settle, take, tick,
}
use logistics_order_fulfillm.OrderApi.System.{Request, perform, perform-keeps}
use logistics_order_fulfillm.OrderApi.Writes.{is_sound, moved_db-keeps, placed_db-keeps}

module _ {N : Type 0} where
  occurs-last :
      (id : ℕ) (e : OutboxEntry N) (rows : List (OutboxEntry N))
      → occurs id (rows ++ e ∷ []) ≡ occurs id (e ∷ rows)
  occurs-last id e [] = refl
  occurs-last id e (d ∷ rows) = ground (arith, occurs-last id e rows)

  occurs-fresh :
      (next : ℕ) (rows : List (OutboxEntry N)) → All (λ r. r.id < next) rows → occurs next rows ≡ 0
  occurs-fresh next [] h = refl
  occurs-fresh next (r ∷ rows) h = ground (arith, occurs-fresh next rows h.1)

  occurs-mark_published :
      (now id j : ℕ) (rows : List (OutboxEntry N))
      → occurs j (mark_published now id rows) ≡ occurs j rows
  unfolding mark_published
  occurs-mark_published now id j [] = refl
  occurs-mark_published now id j (e ∷ rows) = ground (arith, occurs-mark_published now id j rows)

module _ {N : Type 0} (pf : Platform N) where
  pub record IsSound (db : Db N) : Type 0 where
    pub below : All (λ e. e.id < db.next_outbox_id) db.outbox
    pub keys : HasKeys db.outbox
    pub rows : All (λ e. is_sound pf e.channel e.routing_key e.payload ≡ true) db.outbox

  push-IsSound :
      (now : ℕ) (channel : OutboxChannel) (key aggregate type : String) (p : Payload N) (db : Db N)
      → is_sound pf channel key p ≡ true
      → IsSound db
      → IsSound (push_outbox now channel key aggregate type p db)
  unfolding push_outbox
  push-IsSound now channel key aggregate type p db good s = record {
    below =
        All-append (λ e. e.id < db.next_outbox_id + 1) db.outbox _
          (All-imp _ _ db.outbox (λ e h. omega arith) s.below) (omega arith, tt);
    keys = λ id.
        rw (occurs-last id _ db.outbox)
          (ground (arith, s.keys id, occurs-fresh db.next_outbox_id db.outbox s.below));
    rows =
        All-append (λ e. is_sound pf e.channel e.routing_key e.payload ≡ true) db.outbox _ s.rows
          (good, tt);
  }

  pub perform-IsSound :
      (r : Request N) (amb : Ambient) (s : State N) → IsSound s.db → IsSound (perform pf r amb s).db
  unfolding with_order with_row
  perform-IsSound =
      perform-keeps pf IsSound
        (λ dto amb db free good k.
          placed_db-keeps pf IsSound push-IsSound dto amb db good
            (record { below = k.below; keys = k.keys; rows = k.rows }))
        (λ j to amb row db found legal good k.
          moved_db-keeps pf IsSound push-IsSound to amb row db good
            (record { below = k.below; keys = k.keys; rows = k.rows }))

  publish-IsSound :
      (now : ℕ) (attempt : OutboxEntry N → Attempt) (e : OutboxEntry N)
      (rest : List (OutboxEntry N)) (w : World N)
      → IsSound w.api.db
      → IsSound (publish_one now attempt e rest w).api.db
  unfolding publish_one
  publish-IsSound now attempt e rest w k =
      let p : PollerState N = record {
        outbox = w.api.outbox;
        is_polling = w.is_polling;
        sent = w.sent;
      } in
      elim (publish_cases now attempt e p) [
        | inl (o, s) ↦ record { below = rw o k.below; keys = rw o k.keys; rows = rw o k.rows }
        | inr (inl (o, s)) ↦ record { below = rw o k.below; keys = rw o k.keys; rows = rw o k.rows }
        | inr (inr (o, s)) ↦ record {
          below = rw o (
              All-mark _ (λ r. r.id < w.api.next_outbox_id) now e.id w.api.outbox (λ r h. h)
                (λ r own h. h) k.below);
          keys = λ id. rw (o, occurs-mark_published now e.id id w.api.outbox) (k.keys id);
          rows = rw o (
              All-mark _ (λ r. is_sound pf r.channel r.routing_key r.payload ≡ true) now e.id
                w.api.outbox (λ r h. h) (λ r own h. h) k.rows);
        }
      ]

  pub Step-IsSound : {v w : World N} → Step pf v w → IsSound v.api.db → IsSound w.api.db
  Step-IsSound {v} (request r amb) k = perform-IsSound r amb v.api k
  Step-IsSound (tick idle) k = k
  Step-IsSound {v} (publish now attempt entry rest found) k =
      publish-IsSound now attempt entry rest v k
  Step-IsSound (finish empty) k = k
  Step-IsSound (settle topic key sent event target fails was_sent parsed acts) k = k
  Step-IsSound (take exchange key p uuid fails was_sent) k = k
  Step-IsSound (log topic key sent event to_date accepts rows was_sent parsed recorded) k = k

  pub Reach-IsSound : {v w : World N} → IsSound v.api.db → Reach pf v w → IsSound w.api.db
  Reach-IsSound k here = k
  Reach-IsSound k (later r step) = Step-IsSound step (Reach-IsSound k r)

  pub fresh-IsSound : (db : Db N) → db.outbox ≡ [] → IsSound db
  fresh-IsSound db empty = record {
    below = rw empty tt;
    keys = λ id. rw empty (omega arith);
    rows = rw empty tt;
  }
