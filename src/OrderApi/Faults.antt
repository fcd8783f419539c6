-- ===== src/OrderApi/Faults.antt =====
-- A poll of the outbox in which some entries fail (apps/order-api/src/jobs/outbox-poller.service.ts).
use logistics_order_fulfillm.Prelude.{
  ℕ, ◌≡◌, refl, ◌∙◌, ap, Bool, true, false, ◌&&◌, ◌||◌, List, [], ◌∷◌, ◌++◌, map, keep, eqb,
  if◌then◌else◌, arith, some,
}
use mathlib.Core.List.{append_assoc, append-nil}
use logistics_order_fulfillm.OrderApi.Entities.{OutboxEntry}
use logistics_order_fulfillm.OrderApi.Poller.{
  Attempt, delivered, refused, PollerState, message, mark_published, publish_entry, publish_all,
}

abbrev pub is_delivered : Attempt → Bool
is_delivered delivered = true
is_delivered _ = false

abbrev pub is_sent : Attempt → Bool
is_sent refused = false
is_sent _ = true

module _ {N : Type 0} (now : ℕ) (attempt : OutboxEntry N → Attempt) where
  -- an entry of the batch with this id is delivered
  abbrev pub served : List (OutboxEntry N) → ℕ → Bool
  served [] id = false
  served (e ∷ batch) id = (eqb id e.id && is_delivered (attempt e)) || served batch id

  -- The row after the poll.
  abbrev pub settled : List (OutboxEntry N) → OutboxEntry N → OutboxEntry N
  settled batch row = if served batch row.id then record row { published_at = some now } else row

  mark_settled :
      (e : OutboxEntry N) (batch rows : List (OutboxEntry N))
      → map
          (settled batch)
          (if is_delivered (attempt e) then mark_published now e.id rows else rows)
        ≡ map (settled (e ∷ batch)) rows
  unfolding mark_published
  mark_settled e batch [] = ground arith
  mark_settled e batch (row ∷ rows) = ground (arith, mark_settled e batch rows)

  outbox-publish_entry :
      (e : OutboxEntry N) (p : PollerState N)
      → (publish_entry now attempt e p).outbox
        ≡ (if is_delivered (attempt e) then mark_published now e.id p.outbox else p.outbox)
  unfolding publish_entry
  outbox-publish_entry e p = ground arith

  map-settled_nil : (rows : List (OutboxEntry N)) → rows ≡ map (settled []) rows
  map-settled_nil [] = refl
  map-settled_nil (row ∷ rows) = ap (λ r. row ∷ r) (map-settled_nil rows)

  outbox-publish_all :
      (batch : List (OutboxEntry N)) (p : PollerState N)
      → (publish_all now attempt batch p).outbox ≡ map (settled batch) p.outbox
  unfolding publish_all
  outbox-publish_all [] p = map-settled_nil p.outbox
  outbox-publish_all (e ∷ batch) p =
      outbox-publish_all batch (publish_entry now attempt e p)
      ∙ rw (outbox-publish_entry e p) (mark_settled e batch p.outbox)

  sent-publish_entry :
      (e : OutboxEntry N) (p : PollerState N)
      → (publish_entry now attempt e p).sent
        ≡ p.sent ++ (if is_sent (attempt e) then message e ∷ [] else [])
  unfolding publish_entry
  sent-publish_entry e p = ground (arith, append-nil p.sent)

  sent-publish_all :
      (batch : List (OutboxEntry N)) (p : PollerState N)
      → (publish_all now attempt batch p).sent
        ≡ p.sent ++ map message (keep (λ e. is_sent (attempt e)) batch)
  unfolding publish_all
  sent-publish_all [] p = ground (arith, append-nil p.sent)
  sent-publish_all (e ∷ batch) p =
      sent-publish_all batch (publish_entry now attempt e p)
      ∙ rw (sent-publish_entry e p) (
          ground (
            arith,
            append_assoc p.sent (message e ∷ [])
                (map message (keep (λ d. is_sent (attempt d)) batch)),
            append-nil p.sent,
          ))

  -- Of a batch in which any entries fail, exactly the rows whose ids are those of delivered
  -- entries are stamped as published, and the brokers are handed, in the batch's order, the
  -- messages of the entries that were not refused.
  pub publish_all_lem :
      (batch : List (OutboxEntry N)) (p : PollerState N)
      → ((publish_all now attempt batch p).outbox ≡ map (settled batch) p.outbox)
        × ((publish_all now attempt batch p).sent
            ≡ p.sent ++ map message (keep (λ e. is_sent (attempt e)) batch))
  publish_all_lem batch p = (outbox-publish_all batch p, sent-publish_all batch p)
