-- ===== src/OrderApi/Dedupe.antt =====
-- Why the consumers may key an event by its order and its new status: the events of one order have
-- different ones (apps/order-api/src/orders/order-state-machine.ts).
use logistics_order_fulfillm.Prelude.{
  ◌≡◌, ◌≢◌, ap, true, Option, none, some, List, [], ◌∷◌, map, All, ◌<◌, arith, String,
}
use logistics_order_fulfillm.Contracts.Status.{OrderStatus, same-eq}
use logistics_order_fulfillm.OrderApi.Entities.{Platform}
use logistics_order_fulfillm.OrderApi.Store.{State, Ambient}
use logistics_order_fulfillm.OrderApi.Lifecycle.{rank, rank-lt}
use logistics_order_fulfillm.OrderApi.History.{Change, history, is_legal, replay}
use logistics_order_fulfillm.OrderApi.Consistency.{IsConsistent}
use logistics_order_fulfillm.OrderApi.System.{Request, serve, serve-IsConsistent}

abbrev pub new_statuses : List Change → List OrderStatus
new_statuses = map (λ c. c.1)

-- No status stands twice.
abbrev pub AreDistinct : List OrderStatus → Type 0
AreDistinct [] = Unit
AreDistinct (s ∷ ss) = All (λ t. s ≢ t) ss × AreDistinct ss

legal_from : (at : OrderStatus) (c : Change) → is_legal (some at) c ≡ true → rank at < rank c.1
unfolding is_legal
legal_from at (none, to) h = ground arith
legal_from at (some from, to) h = ground (arith, same-eq at from, rank-lt from to)

All-later :
    (a b : OrderStatus) (ss : List OrderStatus)
    → rank a < rank b
    → All (λ t. rank b < rank t) ss
    → All (λ t. rank a < rank t) ss
All-later a b [] h l = tt
All-later a b (s ∷ ss) h l = (omega (arith, l.0), All-later a b ss h l.1)

All-ne :
    (a : OrderStatus) (ss : List OrderStatus) → All (λ t. rank a < rank t) ss → All (λ t. a ≢ t) ss
All-ne a [] l = tt
All-ne a (s ∷ ss) l = (λ e. absurd (omega (arith, ap rank e, l.0)), All-ne a ss l.1)

replay-later :
    (at : OrderStatus) (cs : List Change) (last : Option OrderStatus)
    → replay (some at) cs ≡ some last
    → All (λ t. rank at < rank t) (new_statuses cs)
unfolding replay
replay-later at [] last h = tt
replay-later at (c ∷ cs) last h =
    let step = legal_from at c (ground arith) in
    (step, All-later at c.1 (new_statuses cs) step (replay-later c.1 cs last (ground arith)))

replay-AreDistinct :
    (at : Option OrderStatus) (cs : List Change) (last : Option OrderStatus)
    → replay at cs ≡ some last
    → AreDistinct (new_statuses cs)
unfolding replay
replay-AreDistinct at [] last h = tt
replay-AreDistinct at (c ∷ cs) last h =
    let rest : replay (some c.1) cs ≡ some last = ground arith in
    (
      All-ne c.1 (new_statuses cs) (replay-later c.1 cs last rest),
      replay-AreDistinct (some c.1) cs last rest,
    )

-- From a consistent outbox, whatever placements and transitions are served, the status changes of
-- one order in the outbox have pairwise different new statuses.
pub serve-AreDistinct :
    {N : Type 0} (pf : Platform N) (rs : List (Request N × Ambient)) (s : State N)
    → IsConsistent s.db
    → (id : String) → AreDistinct (new_statuses (history id (serve pf rs s).outbox))
serve-AreDistinct pf rs s c id =
    replay-AreDistinct none (history id (serve pf rs s).outbox) _ (serve-IsConsistent pf rs s c id)
