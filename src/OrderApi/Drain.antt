-- ===== src/OrderApi/Drain.antt =====
-- What one poll of the outbox does, and how many polls empty it
-- (apps/order-api/src/jobs/outbox-poller.service.ts).
use logistics_order_fulfillm.Prelude.{
  ℕ, zero, suc, ◌+◌, ◌-◌, ◌*◌, ◌≤◌, ◌≡◌, refl, true, false, List, [], ◌∷◌, ◌++◌, keep, take, length,
  length-take, nil_of_length, eqb, ◌∙◌, if◌then◌else◌, arith,
}
use logistics_order_fulfillm.OrderApi.Entities.{OutboxEntry}
use logistics_order_fulfillm.OrderApi.Poller.{
  Attempt, delivered, PollerState, message, is_pending, insert_oldest, oldest_first, pending_batch,
  batch_size, mark_published, publish_entry, publish_all, poll_and_publish,
}

module _ {N : Type 0} where
  -- how many of the rows have this id
  abbrev pub occurs : ℕ → List (OutboxEntry N) → ℕ
  occurs id [] = 0
  occurs id (row ∷ rows) = if eqb row.id id then suc (occurs id rows) else occurs id rows

  abbrev pub pending : List (OutboxEntry N) → List (OutboxEntry N)
  pending outbox = keep is_pending outbox

  -- The primary key: no two rows have one id.
  abbrev pub HasKeys : List (OutboxEntry N) → Type 0
  HasKeys outbox = (id : ℕ) → occurs id outbox ≤ 1

  occurs-insert :
      (id : ℕ) (e : OutboxEntry N) (rows : List (OutboxEntry N))
      → occurs id (insert_oldest e rows) ≡ occurs id (e ∷ rows)
  unfolding insert_oldest
  occurs-insert id e [] = refl
  occurs-insert id e (d ∷ rows) = ground (arith, occurs-insert id e rows)

  occurs-oldest_first :
      (id : ℕ) (rows : List (OutboxEntry N)) → occurs id (oldest_first rows) ≡ occurs id rows
  unfolding oldest_first
  occurs-oldest_first id [] = refl
  occurs-oldest_first id (e ∷ rows) =
      ground (arith, occurs-insert id e (oldest_first rows), occurs-oldest_first id rows)

  length-insert :
      (e : OutboxEntry N) (rows : List (OutboxEntry N))
      → length (insert_oldest e rows) ≡ suc (length rows)
  unfolding insert_oldest
  length-insert e [] = refl
  length-insert e (d ∷ rows) = ground (arith, length-insert e rows)

  length-oldest_first : (rows : List (OutboxEntry N)) → length (oldest_first rows) ≡ length rows
  unfolding oldest_first
  length-oldest_first [] = refl
  length-oldest_first (e ∷ rows) =
      ground (arith, length-insert e (oldest_first rows), length-oldest_first rows)

  occurs-take : (id n : ℕ) (rows : List (OutboxEntry N)) → occurs id (take n rows) ≤ occurs id rows
  occurs-take id zero rows = omega arith
  occurs-take id (suc n) [] = omega arith
  occurs-take id (suc n) (e ∷ rows) = ground (arith, occurs-take id n rows)

  occurs-pending :
      (id : ℕ) (rows : List (OutboxEntry N)) → occurs id (pending rows) ≤ occurs id rows
  occurs-pending id [] = omega arith
  occurs-pending id (e ∷ rows) = ground (arith, occurs-pending id rows)

  -- a mark takes away the pending rows of its id, and no other
  pub length-mark :
      (now id : ℕ) (rows : List (OutboxEntry N))
      → length (pending (mark_published now id rows)) + occurs id (pending rows)
        ≡ length (pending rows)
  unfolding mark_published is_pending
  length-mark now id [] = refl
  length-mark now id (e ∷ rows) = ground (arith, length-mark now id rows)

  occurs-mark :
      (now id j : ℕ) (rows : List (OutboxEntry N))
      → occurs j (pending (mark_published now id rows))
        ≡ (if eqb id j then 0 else occurs j (pending rows))
  unfolding mark_published is_pending
  occurs-mark now id j [] = ground arith
  occurs-mark now id j (e ∷ rows) = ground (arith, occurs-mark now id j rows)

module _ {N : Type 0} (now : ℕ) (attempt : OutboxEntry N → Attempt) where
  publish_entry-delivered :
      (e : OutboxEntry N) (p : PollerState N)
      → attempt e ≡ delivered
      → publish_entry now attempt e p
        ≡ record p { outbox = mark_published now e.id p.outbox; sent = p.sent ++ message e ∷ [] }
  unfolding publish_entry
  publish_entry-delivered e p d = rw d

  -- each entry that is delivered leaves the pending ones
  length-publish_all :
      (all_delivered : (e : OutboxEntry N) → attempt e ≡ delivered)
      → (batch : List (OutboxEntry N)) (p : PollerState N)
      → ((id : ℕ) → occurs id batch ≤ occurs id (pending p.outbox))
      → ((id : ℕ) → occurs id (pending p.outbox) ≤ 1)
      → length (pending (publish_all now attempt batch p).outbox) + length batch
        ≡ length (pending p.outbox)
  unfolding publish_all
  length-publish_all all_delivered [] p inside keys = omega arith
  length-publish_all all_delivered (e ∷ batch) p inside keys =
      let q = record p {
        outbox = mark_published now e.id p.outbox;
        sent = p.sent ++ message e ∷ [];
      } in
      let rest =
        length-publish_all all_delivered batch q
          (λ id.
            ground
              (arith, occurs-mark now e.id id p.outbox, inside id, inside e.id, keys e.id, keys id))
          (λ id. ground (arith, occurs-mark now e.id id p.outbox, keys id)) in
      ground (
        arith,
        publish_entry-delivered e p (all_delivered e),
        length-mark now e.id p.outbox,
        inside e.id,
        keys e.id,
        rest,
      )

  occurs-mark_all :
      (j id : ℕ) (rows : List (OutboxEntry N))
      → occurs j (mark_published now id rows) ≡ occurs j rows
  unfolding mark_published
  occurs-mark_all j id [] = refl
  occurs-mark_all j id (e ∷ rows) = ground (arith, occurs-mark_all j id rows)

  occurs-publish_entry :
      (j : ℕ) (e : OutboxEntry N) (p : PollerState N)
      → occurs j (publish_entry now attempt e p).outbox ≡ occurs j p.outbox
  unfolding publish_entry
  occurs-publish_entry j e p = ground (arith, occurs-mark_all j e.id p.outbox)

  occurs-publish_all :
      (j : ℕ) (batch : List (OutboxEntry N)) (p : PollerState N)
      → occurs j (publish_all now attempt batch p).outbox ≡ occurs j p.outbox
  unfolding publish_all
  occurs-publish_all j [] p = refl
  occurs-publish_all j (e ∷ batch) p =
      occurs-publish_all j batch (publish_entry now attempt e p) ∙ occurs-publish_entry j e p

  polling-publish_all :
      (batch : List (OutboxEntry N)) (p : PollerState N)
      → (publish_all now attempt batch p).is_polling ≡ p.is_polling
  unfolding publish_all publish_entry
  polling-publish_all [] p = refl
  polling-publish_all (e ∷ batch) p =
      polling-publish_all batch (publish_entry now attempt e p) ∙ ground arith

  abbrev pub poll : PollerState N → PollerState N
  poll = poll_and_publish now attempt false

  pending-poll :
      (all_delivered : (e : OutboxEntry N) → attempt e ≡ delivered)
      → (p : PollerState N) → p.is_polling ≡ false
      → HasKeys p.outbox
      → length (pending (poll p).outbox) ≡ length (pending p.outbox) - batch_size
  unfolding poll_and_publish pending_batch
  pending-poll all_delivered p idle keys =
      let sorted = oldest_first (pending p.outbox) in
      let started = record p { is_polling = true } in
      let counted =
        length-publish_all all_delivered (take batch_size sorted) started
          (λ id.
            omega
              (arith, occurs-take id batch_size sorted, occurs-oldest_first id (pending p.outbox)))
          (λ id. omega (arith, occurs-pending id p.outbox, keys id)) in
      rw idle (
        omega
          (arith, counted, length-take batch_size sorted, length-oldest_first (pending p.outbox)))

  keys-poll : (p : PollerState N) → HasKeys p.outbox → HasKeys (poll p).outbox
  unfolding poll_and_publish
  keys-poll p keys id = ground (
    arith,
    keys id,
    occurs-publish_all id (pending_batch p.outbox) (record p { is_polling = true }),
  )

  pub idle-poll : (p : PollerState N) → p.is_polling ≡ false → (poll p).is_polling ≡ false
  unfolding poll_and_publish
  idle-poll p idle = ground arith

  unfoldable pub polls : ℕ → PollerState N → PollerState N
  polls zero p = p
  polls (suc k) p = polls k (poll p)

  -- If every entry is delivered, the poller is idle, ids are unique and at most k * 50 entries are
  -- pending, then k polls leave no entry pending.
  pub pending-polls :
      (all_delivered : (e : OutboxEntry N) → attempt e ≡ delivered)
      → (k : ℕ) (p : PollerState N) → p.is_polling ≡ false
      → HasKeys p.outbox
      → length (pending p.outbox) ≤ k * batch_size
      → pending (polls k p).outbox ≡ []
  unfolding polls
  pending-polls all_delivered zero p idle keys few = nil_of_length (pending p.outbox) (omega arith)
  pending-polls all_delivered (suc k) p idle keys few =
      pending-polls all_delivered k (poll p) (idle-poll p idle) (keys-poll p keys)
        (omega (arith, pending-poll all_delivered p idle keys))
