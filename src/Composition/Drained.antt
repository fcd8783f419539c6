-- ===== src/Composition/Drained.antt =====
-- How the poller, once its publishes succeed, hands over all that the outbox holds, whatever state
-- it is found in (apps/order-api/src/jobs/outbox-poller.service.ts).
use logistics_order_fulfillm.Composition.Delivered.{Reach-sent}
use logistics_order_fulfillm.OrderApi.Poller.{
  delivered, PollerState, Attempt, publish_all, PollerState, publish_entry, Message, batch_size,
  is_pending, message,
}
use logistics_order_fulfillm.Composition.Sound.{Reach-IsSound, fresh-IsSound}
use logistics_order_fulfillm.OrderApi.Entities.{OutboxEntry, Platform}
use logistics_order_fulfillm.Composition.World.{
  Reach, World, finish, here, later, poller_of, IsAmong,
}
use logistics_order_fulfillm.OrderApi.Writes.{is_sound}
use logistics_order_fulfillm.Prelude.{
  [], arith, false, length, refl, subst, suc, sym, zero, ℕ, ◌≡◌, List, ◌≤◌, ◌∷◌, ◌*◌, All,
  Bool-cases, inl, inr, true,
}
use logistics_order_fulfillm.OrderApi.Drain.{
  idle-poll, pending, pending-polls, poll, polls, length-mark,
}
use logistics_order_fulfillm.Composition.Polls.{polled, poll-Reach, publish_all-Reach, polled}

module _ {N : Type 0} (pf : Platform N) where
  pub Reach-trans : {u v w : World N} → Reach pf u v → Reach pf v w → Reach pf u w
  Reach-trans r here = r
  Reach-trans r (later s step) = later (Reach-trans r s) step

  module _ (now : ℕ) (attempt : OutboxEntry N → Attempt) where
    rested :
        (start w : World N)
        → w.is_polling ≡ false
        → w.batch ≡ []
        → Reach pf start w
        → Reach pf start (record w { is_polling = false; batch = [] })
    rested start w idle empty run =
        subst (λ b. Reach pf start (record w { is_polling = false; batch = b })) empty
          (subst (λ b. Reach pf start (record w { is_polling = b })) idle run)

    idle_poller : (p : PollerState N) → p.is_polling ≡ false → p ≡ record p { is_polling = false }
    idle_poller p idle = ground arith

    -- polls one after the other, as a run
    polls-Reach :
        (k : ℕ) (start w : World N)
        → w.is_polling ≡ false
        → w.batch ≡ []
        → Reach pf start w
        → Reach pf start (polled (polls now attempt k (poller_of w)) false w)
    unfolding polls poller_of
    polls-Reach zero start w idle empty run = rested start w idle empty run
    polls-Reach (suc k) start w idle empty run =
        let p = poll now attempt (poller_of w) in
        subst (λ (q : PollerState N). Reach pf start (polled (polls now attempt k q) false w))
          (sym (idle_poller p (idle-poll now attempt (poller_of w) idle)))
          (polls-Reach k start (polled p false w) refl refl
            (Reach-trans run (poll-Reach pf now attempt w idle)))

  module _ (now : ℕ) (attempt : OutboxEntry N → Attempt) where
    length-publish_entry :
        (e : OutboxEntry N) (p : PollerState N)
        → length (pending (publish_entry now attempt e p).outbox) ≤ length (pending p.outbox)
    unfolding publish_entry
    length-publish_entry e p = ground (arith, length-mark now e.id p.outbox)

    -- no entry becomes pending again
    length-publish_all_le :
        (batch : List (OutboxEntry N)) (p : PollerState N)
        → length (pending (publish_all now attempt batch p).outbox) ≤ length (pending p.outbox)
    unfolding publish_all
    length-publish_all_le [] p = omega arith
    length-publish_all_le (e ∷ batch) p =
        let q = publish_entry now attempt e p in
        omega (arith, length-publish_all_le batch q, length-publish_entry e p)

    -- The poller once the poll that it runs, if it runs one, has tried the rest of its batch.
    abbrev pub rest_of_poll : World N → PollerState N
    rest_of_poll w = record (publish_all now attempt w.batch (poller_of w)) { is_polling = false }

    rest_of_poll-Reach : (w : World N) → Reach pf w (polled (rest_of_poll w) false w)
    unfolding poller_of
    rest_of_poll-Reach w =
        later (publish_all-Reach pf now attempt w w w.batch refl here) (finish refl)

all_stamped :
    {N : Type 0} (sent : List (Message N)) (outbox : List (OutboxEntry N))
    → pending outbox ≡ []
    → All (λ e. is_pending e ≡ false → IsAmong (message e) sent) outbox
    → All (λ e. IsAmong (message e) sent) outbox
all_stamped sent [] none_left h = tt
all_stamped sent (e ∷ es) none_left h = elim (Bool-cases (is_pending e)) [
  | inl waiting ↦ absurd (ground arith)
  | inr stamped ↦ (h.0 stamped, all_stamped sent es (ground arith) h.1)
]

-- From an empty outbox and an empty batch, after any steps of the services, in any order and with
-- any failures: once every publish succeeds, as many polls as make batches of fifty of the pending
-- entries, after the rest of the poll that may be running, leave no entry pending; then the
-- message of each row of the outbox is among those that the brokers were handed, and is an event
-- that the schema accepts, for the topic of the status changes, or one of the two commands, for
-- its routing key.
pub Reach-handed_over :
    {N : Type 0} (pf : Platform N) (now : ℕ) (attempt : OutboxEntry N → Attempt) (k : ℕ)
    (start w : World N)
    → start.api.outbox ≡ []
    → start.batch ≡ []
    → Reach pf start w
    → ((e : OutboxEntry N) → attempt e ≡ delivered)
    → length (pending w.api.outbox) ≤ k * batch_size
    → let p = polls now attempt k (rest_of_poll pf now attempt w) in
      (pending p.outbox ≡ [])
      × All (λ e. IsAmong (message e) p.sent) p.outbox
      × All (λ e. is_sound pf e.channel e.routing_key e.payload ≡ true) p.outbox
unfolding poller_of
Reach-handed_over {N} pf now attempt k start w no_rows no_batch run all_delivered few =
    let first : World N = polled (rest_of_poll pf now attempt w) false w in
    let begun = Reach-trans pf run (rest_of_poll-Reach pf now attempt w) in
    let final : World N = polled (polls now attempt k (poller_of first)) false first in
    let to_final = polls-Reach pf now attempt k start first refl refl begun in
    let fresh = fresh-IsSound pf start.api.db no_rows in
    let none_left =
      pending-polls now attempt all_delivered k (poller_of first) refl
        (Reach-IsSound pf fresh begun).keys
        (omega (arith, length-publish_all_le pf now attempt w.batch (poller_of w), few)) in
    (
      none_left,
      all_stamped final.sent final.api.outbox none_left
          (Reach-sent pf start final no_rows no_batch to_final),
      (Reach-IsSound pf fresh to_final).rows,
    )
