-- ===== src/Composition/Polls.antt =====
-- A poll of the outbox, from its start to its end, as a run of the steps of the services together
-- (apps/order-api/src/jobs/outbox-poller.service.ts).
use logistics_order_fulfillm.OrderApi.Poller.{delivered, refused, unsaved, after_attempt}
use logistics_order_fulfillm.Prelude.{
  ℕ, ◌≡◌, refl, sym, subst, Bool, true, false, List, [], ◌∷◌, arith,
}
use logistics_order_fulfillm.OrderApi.Entities.{Platform, OutboxEntry}
use logistics_order_fulfillm.OrderApi.Poller.{
  Attempt, PollerState, pending_batch, publish_entry, publish_all, poll_and_publish, after_attempt,
  delivered, refused,
}
use logistics_order_fulfillm.Composition.World.{
  World, Reach, here, later, tick, publish, finish, publish_one, poller_of,
}

module _ {N : Type 0} where
  -- The world with the poller's outbox and what it has sent.
  abbrev pub polled : PollerState N → Bool → World N → World N
  polled p is_polling w = record w {
    api = record w.api { db = record w.api.db { outbox = p.outbox } };
    is_polling = is_polling;
    sent = p.sent;
    batch = [];
  }

  module _ (pf : Platform N) (now : ℕ) (attempt : OutboxEntry N → Attempt) where
    poller_of-publish_one :
        (entry : OutboxEntry N) (rest : List (OutboxEntry N)) (w : World N)
        → poller_of (publish_one now attempt entry rest w)
          ≡ publish_entry now attempt entry (poller_of w)
    unfolding publish_one poller_of publish_entry
    poller_of-publish_one entry rest w = go (attempt entry)
      where
        go :
            (a : Attempt)
            → let p : PollerState N = after_attempt now entry a (poller_of w) in
              record p { is_polling = w.is_polling } ≡ p
        go delivered = refl
        go refused = refl
        go unsaved = refl

    pub publish_all-Reach :
        (start w : World N) (entries : List (OutboxEntry N))
        → w.batch ≡ entries
        → Reach pf start w
        → Reach pf start (polled (publish_all now attempt entries (poller_of w)) w.is_polling w)
    unfolding publish_all publish_one poller_of
    publish_all-Reach start w [] found run =
        subst (λ b. Reach pf start (record w { batch = b })) found run
    publish_all-Reach start w (entry ∷ rest) found run =
        subst
          (λ (p : PollerState N).
            Reach pf start (polled (publish_all now attempt rest p) w.is_polling w))
          (poller_of-publish_one entry rest w)
          (publish_all-Reach start (publish_one now attempt entry rest w) rest refl
            (later run (publish now attempt entry rest found)))

    poll_and_publish_idle :
        (p : PollerState N)
        → p.is_polling ≡ false
        → poll_and_publish now attempt false p
          ≡ record (publish_all now attempt
              (pending_batch p.outbox)
              (record p { is_polling = true })) { is_polling = false }
    unfolding poll_and_publish
    poll_and_publish_idle p idle = ground arith

    -- If no poll is running, a poll whose query succeeds, from its start to its end, is a run of
    -- the steps of the services together: the tick, a publishing of each entry of the batch, and
    -- the end of the poll, whichever entries fail.
    pub poll-Reach :
        (w : World N)
        → w.is_polling ≡ false
        → Reach pf w (polled (poll_and_publish now attempt false (poller_of w)) false w)
    unfolding poller_of
    poll-Reach w idle =
        let begun : World N = record w { is_polling = true; batch = pending_batch w.api.outbox } in
        subst (λ (p : PollerState N). Reach pf w (polled p false w))
          (sym (poll_and_publish_idle (poller_of w) idle))
          (later (publish_all-Reach w begun begun.batch refl (later here (tick idle)))
            (finish refl))
