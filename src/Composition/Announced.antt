-- ===== src/Composition/Announced.antt =====
-- Which status changes the outbox announces, and that it forgets none
-- (apps/order-api/src/orders/orders.service.ts, apps/order-api/src/jobs/outbox-poller.service.ts).
use logistics_order_fulfillm.OrderApi.StateMachine.{can_transition}
use logistics_order_fulfillm.OrderApi.Writes.{placed_db-keeps, moved_db-keeps, is_sound}
use logistics_order_fulfillm.Prelude.{
  ℕ, String, ◌≡◌, refl, Bool, true, false, ◌||◌, Option, none, some, List, [], ◌∷◌, ◌++◌, arith,
  Bool-cases, inl, inr,
}
use logistics_order_fulfillm.Contracts.Status.{
  OrderStatus, same, payment_confirmed, cancelled, same-eq, placed,
}
use logistics_order_fulfillm.OrderApi.Entities.{Platform, OutboxEntry, OutboxChannel, Payload}
use logistics_order_fulfillm.OrderApi.Store.{Db, State, Ambient, push_outbox, with_order, with_row}
use logistics_order_fulfillm.OrderApi.History.{Change, history, history-append, replay, is_legal}
use logistics_order_fulfillm.OrderApi.Poller.{mark_published}
use logistics_order_fulfillm.OrderApi.System.{Request, perform, perform-keeps}

-- A change to this status is among the changes.
abbrev pub says : OrderStatus → List Change → Bool
says status [] = false
says status (c ∷ cs) = same c.1 status || says status cs

pub says-append :
    (status : OrderStatus) (xs ys : List Change)
    → says status (xs ++ ys) ≡ (says status xs || says status ys)
says-append status [] ys = refl
says-append status (c ∷ xs) ys = ground (arith, says-append status xs ys)

module _ {N : Type 0} where
  -- The outbox holds an event that the order has come to this status.
  abbrev pub announced : String → OrderStatus → List (OutboxEntry N) → Bool
  announced id status outbox = says status (history id outbox)

  pub history-mark_published :
      (now entry_id : ℕ) (id : String) (outbox : List (OutboxEntry N))
      → history id (mark_published now entry_id outbox) ≡ history id outbox
  unfolding history mark_published
  history-mark_published now entry_id id [] = refl
  history-mark_published now entry_id id (row ∷ rows) =
      ground (arith, history-mark_published now entry_id id rows)

  announced-push :
      (id : String) (status : OrderStatus) (now : ℕ) (channel : OutboxChannel)
      (key aggregate type : String) (p : Payload N) (db : Db N)
      → announced id status db.outbox ≡ true
      → announced id status (push_outbox now channel key aggregate type p db).outbox ≡ true
  unfolding push_outbox
  announced-push id status now channel key aggregate type p db h =
      rw (history-append id db.outbox, says-append status (history id db.outbox), h)

module _ {N : Type 0} (pf : Platform N) where
  -- What was announced before a request is announced after it.
  pub announced-perform :
      (id : String) (status : OrderStatus) (r : Request N) (amb : Ambient) (s : State N)
      → announced id status s.outbox ≡ true
      → announced id status (perform pf r amb s).outbox ≡ true
  unfolding with_order with_row
  announced-perform id status r amb s h =
      let push =
        λ (now : ℕ) (channel : OutboxChannel) (key aggregate type : String) (p : Payload N)
            (db : Db N) (sound : is_sound pf channel key p ≡ true).
          announced-push id status now channel key aggregate type p db in
      perform-keeps pf (λ db. announced id status db.outbox ≡ true)
        (λ dto amb db free good.
          placed_db-keeps pf (λ db. announced id status db.outbox ≡ true) push dto amb db good)
        (λ j to amb row db found legal good.
          moved_db-keeps pf (λ db. announced id status db.outbox ≡ true) push to amb row db good)
        r amb s h

-- An order whose payment was confirmed and that was not cancelled.
abbrev pub is_paid : Option OrderStatus → Bool
is_paid none = false
is_paid (some placed) = false
is_paid (some cancelled) = false
is_paid (some _) = true

paid_step :
    (at : OrderStatus) (c : Change)
    → is_paid (some at) ≡ true
    → is_legal (some at) c ≡ true
    → is_paid (some c.1) ≡ true
unfolding is_legal can_transition
paid_step at (none, to) p l = ground arith
paid_step at (some from, to) p l = ground (arith, same-eq at from)

paid_after :
    (at : OrderStatus) (cs : List Change) (last : Option OrderStatus)
    → is_paid (some at) ≡ true
    → replay (some at) cs ≡ some last
    → is_paid last ≡ true
unfolding replay
paid_after at [] last p h = ground arith
paid_after at (c ∷ cs) last p h =
    paid_after c.1 cs last (paid_step at c p (ground arith)) (ground arith)

-- A legal history in which a payment was confirmed ends in a status that is paid.
pub replay-is_paid :
    (at : Option OrderStatus) (cs : List Change) (last : Option OrderStatus)
    → replay at cs ≡ some last
    → says payment_confirmed cs ≡ true
    → is_paid last ≡ true
unfolding replay
replay-is_paid at [] last h s = absurd (ground arith)
replay-is_paid at (c ∷ cs) last h s = elim (Bool-cases (same c.1 payment_confirmed)) [
  | inl now ↦ paid_after c.1 cs last (ground (arith, same-eq c.1 payment_confirmed)) (ground arith)
  | inr later ↦ replay-is_paid (some c.1) cs last (ground arith) (ground arith)
]

cancelled_after :
    (at : OrderStatus) (cs : List Change) (last : Option OrderStatus)
    → at ≡ cancelled
    → replay (some at) cs ≡ some last
    → last ≡ some cancelled
unfolding replay is_legal can_transition
cancelled_after at [] last e h = ground arith
cancelled_after at ((none, to) ∷ cs) last e h = ground arith
cancelled_after at ((some from, to) ∷ cs) last e h = ground (arith, same-eq at from)

-- A legal history in which the order was cancelled ends there.
pub replay-cancelled :
    (at : Option OrderStatus) (cs : List Change) (last : Option OrderStatus)
    → replay at cs ≡ some last
    → says cancelled cs ≡ true
    → last ≡ some cancelled
unfolding replay
replay-cancelled at [] last h s = absurd (ground arith)
replay-cancelled at (c ∷ cs) last h s = elim (Bool-cases (same c.1 cancelled)) [
  | inl now ↦ cancelled_after c.1 cs last (ground (arith, same-eq c.1 cancelled)) (ground arith)
  | inr later ↦ replay-cancelled (some c.1) cs last (ground arith) (ground arith)
]
