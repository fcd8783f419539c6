-- ===== src/Composition/Delivered.antt =====
-- The outbox loses no message: what it stamps as published was handed to a broker
-- (apps/order-api/src/jobs/outbox-poller.service.ts).
use logistics_order_fulfillm.Composition.Batch.{All-mark, publish_cases}
use logistics_order_fulfillm.Composition.Rows.{
  Stamped, Kept, Kept-perform, IsAmong-more, Listed, mark_published-Listed, Listed-mark,
}
use logistics_order_fulfillm.Prelude.{
  ℕ, ◌≡◌, refl, sym, subst, false, List, [], ◌∷◌, ◌++◌, All, inl, inr,
}
use logistics_order_fulfillm.Prelude.Everywhere.{All-take, All-keep, All-imp, All-zip}
use logistics_order_fulfillm.OrderApi.Entities.{Platform, OutboxEntry}
use logistics_order_fulfillm.OrderApi.Poller.{
  Attempt, Message, message, is_pending, pending_batch, mark_published, PollerState,
}
use logistics_order_fulfillm.Composition.World.{
  IsAmong, log, World, Step, Reach, here, later, request, tick, publish, finish, settle, take,
  publish_one,
}
use logistics_order_fulfillm.Composition.Batch.{All-oldest_first}

module _ {N : Type 0} where
  mark_published-Stamped :
      (now : ℕ) (e : OutboxEntry N) (sent : List (Message N)) (outbox : List (OutboxEntry N))
      → All (λ r. r.id ≡ e.id → message r ≡ message e) outbox
      → All (Stamped sent) outbox
      → All (Stamped (sent ++ message e ∷ [])) (mark_published now e.id outbox)
  unfolding message
  mark_published-Stamped now e sent outbox rows stamped =
      All-mark (λ r. (r.id ≡ e.id → message r ≡ message e) × Stamped sent r)
        (Stamped (sent ++ message e ∷ [])) now e.id outbox
        (λ r h stamp. IsAmong-more (message r) (message e) sent (h.1 stamp))
        (λ r own h stamp.
          subst (λ m. IsAmong m (sent ++ message e ∷ [])) (sym (h.0 own)) (sent, [], refl))
        (All-zip (λ r. r.id ≡ e.id → message r ≡ message e) (Stamped sent) outbox rows stamped)

  Stamped-more :
      (m : Message N) (sent : List (Message N)) (outbox : List (OutboxEntry N))
      → All (Stamped sent) outbox
      → All (Stamped (sent ++ m ∷ [])) outbox
  Stamped-more m sent outbox h =
      All-imp (Stamped sent) (Stamped (sent ++ m ∷ [])) outbox
        (λ r known stamp. IsAmong-more (message r) m sent (known stamp)) h

  Kept-publish :
      (now : ℕ) (attempt : OutboxEntry N → Attempt) (e : OutboxEntry N)
      (rest : List (OutboxEntry N)) (w : World N)
      → Kept (e ∷ rest) w.sent w.api.db
      → let w' = publish_one now attempt e rest w in Kept w'.batch w'.sent w'.api.db
  unfolding publish_one
  Kept-publish now attempt e rest w k =
      let next = w.api.next_outbox_id in
      let p : PollerState N = record {
        outbox = w.api.outbox;
        is_polling = w.is_polling;
        sent = w.sent;
      } in
      elim (publish_cases now attempt e p) [
        | inl (o, s) ↦ record {
          listed = rw o k.listed;
          queued = rw o (k.queued.1);
          stamped = rw (o, s) k.stamped;
        }
        | inr (inl (o, s)) ↦ record {
          listed = rw o k.listed;
          queued = rw o (k.queued.1);
          stamped = rw (o, s) (Stamped-more (message e) w.sent w.api.outbox k.stamped);
        }
        | inr (inr (o, s)) ↦ record {
          listed = rw o (mark_published-Listed next w.api.outbox now e.id k.listed);
          queued = rw o (All-imp _ _ rest (Listed-mark next w.api.outbox now e.id) k.queued.1);
          stamped =
              rw (o, s) (mark_published-Stamped now e w.sent w.api.outbox k.queued.0.1 k.stamped);
        }
      ]

  KeptIn : World N → Type 0
  KeptIn w = Kept w.batch w.sent w.api.db

  module _ (pf : Platform N) where
    Step-Kept : {v w : World N} → Step pf v w → KeptIn v → KeptIn w
    unfolding KeptIn pending_batch
    Step-Kept {v} (request r amb) k = Kept-perform pf v.batch v.sent r amb v.api k
    Step-Kept {v} (tick idle) k =
        let L = Listed v.api.next_outbox_id v.api.outbox in
        record {
          listed = k.listed;
          queued =
              All-take L 50 _ (All-oldest_first L _ (All-keep L is_pending v.api.outbox k.listed));
          stamped = k.stamped;
        }
    Step-Kept {v} (publish now attempt entry rest found) k =
        Kept-publish now attempt entry rest v (subst (λ b. Kept b v.sent v.api.db) found k)
    Step-Kept (finish empty) k = record {
      listed = k.listed;
      queued = k.queued;
      stamped = k.stamped;
    }
    Step-Kept (settle topic key sent event target fails was_sent parsed acts) k = record {
      listed = k.listed;
      queued = k.queued;
      stamped = k.stamped;
    }
    Step-Kept (take exchange key p uuid fails was_sent) k = record {
      listed = k.listed;
      queued = k.queued;
      stamped = k.stamped;
    }
    Step-Kept (log topic key sent event to_date accepts rows was_sent parsed recorded) k = record {
      listed = k.listed;
      queued = k.queued;
      stamped = k.stamped;
    }

    Reach-Kept : {v w : World N} → KeptIn v → Reach pf v w → KeptIn w
    Reach-Kept k here = k
    Reach-Kept k (later r step) = Step-Kept step (Reach-Kept k r)

  fresh_kept : (w : World N) → w.api.outbox ≡ [] → w.batch ≡ [] → KeptIn w
  unfolding KeptIn
  fresh_kept w no_rows no_batch = record {
    listed = rw no_rows tt;
    queued = rw no_batch tt;
    stamped = rw no_rows tt;
  }

-- From an empty outbox and an empty batch, after any steps of the services, in any order and with
-- any failures, each row of the outbox that is stamped as published has its message among those
-- that the brokers were handed.
pub Reach-sent :
    {N : Type 0} (pf : Platform N) (start w : World N)
    → start.api.outbox ≡ []
    → start.batch ≡ []
    → Reach pf start w
    → All (λ e. is_pending e ≡ false → IsAmong (message e) w.sent) w.api.outbox
unfolding KeptIn
Reach-sent pf start w no_rows no_batch run =
    (Reach-Kept pf (fresh_kept start no_rows no_batch) run).stamped
