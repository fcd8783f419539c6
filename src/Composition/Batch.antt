-- ===== src/Composition/Batch.antt =====
-- What a predicate of the rows of the outbox keeps when the poller reads them and marks them
-- (apps/order-api/src/jobs/outbox-poller.service.ts).
use logistics_order_fulfillm.Prelude.{
  ℕ, ◌≡◌, some, List, [], ◌∷◌, ◌++◌, All, arith, ◌⊎◌, inl, inr, eqb, Bool-cases, leb,
}
use logistics_order_fulfillm.OrderApi.Entities.{OutboxEntry}
use logistics_order_fulfillm.OrderApi.Poller.{
  Attempt, message, insert_oldest, oldest_first, mark_published, PollerState, publish_entry,
}

module _ {N : Type 0} where
  All-insert_oldest :
      (P : OutboxEntry N → Type 0) (e : OutboxEntry N) (rows : List (OutboxEntry N))
      → P e
      → All P rows
      → All P (insert_oldest e rows)
  unfolding insert_oldest
  All-insert_oldest P e [] p h = (p, tt)
  All-insert_oldest P e (d ∷ rows) p h = elim (Bool-cases (leb e.created_at d.created_at)) [
    | inl first ↦ rw first (p, h)
    | inr after ↦ rw after (h.0, All-insert_oldest P e rows p h.1)
  ]

  pub All-oldest_first :
      (P : OutboxEntry N → Type 0) (rows : List (OutboxEntry N))
      → All P rows
      → All P (oldest_first rows)
  unfolding oldest_first
  All-oldest_first P [] h = tt
  All-oldest_first P (e ∷ rows) h =
      All-insert_oldest P e (oldest_first rows) h.0 (All-oldest_first P rows h.1)

  pub All-mark :
      (P Q : OutboxEntry N → Type 0) (now id : ℕ) (rows : List (OutboxEntry N))
      → ((r : OutboxEntry N) → P r → Q r)
      → ((r : OutboxEntry N) → r.id ≡ id → P r → Q (record r { published_at = some now }))
      → All P rows
      → All Q (mark_published now id rows)
  unfolding mark_published
  All-mark P Q now id [] other own h = tt
  All-mark P Q now id (r ∷ rows) other own h = elim (Bool-cases (eqb r.id id)) [
    | inl same ↦ rw same (own r (ground arith) h.0, All-mark P Q now id rows other own h.1)
    | inr different ↦ rw different (other r h.0, All-mark P Q now id rows other own h.1)
  ]

  -- An attempt changes nothing, or it only sends, or it sends and marks.
  pub publish_cases :
      (now : ℕ) (attempt : OutboxEntry N → Attempt) (e : OutboxEntry N) (p : PollerState N)
      → let p' = publish_entry now attempt e p in
        ((p'.outbox ≡ p.outbox) × (p'.sent ≡ p.sent))
        ⊎ ((p'.outbox ≡ p.outbox) × (p'.sent ≡ p.sent ++ message e ∷ []))
        ⊎ ((p'.outbox ≡ mark_published now e.id p.outbox) × (p'.sent ≡ p.sent ++ message e ∷ []))
  unfolding publish_entry
  publish_cases now attempt e p = ground arith
