-- ===== src/OrderApi/Lifecycle.antt =====
-- What the order state machine allows (apps/order-api/src/orders/order-state-machine.ts).
use logistics_order_fulfillm.Prelude.{
  ℕ, ◌+◌, ◌≤◌, ◌<◌, ◌≡◌, ◌≢◌, refl, ap, ◌↔◌, true, List, [], ◌∷◌, length, arith,
}
use logistics_order_fulfillm.Contracts.Status.{
  OrderStatus, placed, payment_confirmed, picking, packed, shipped, delivered, cancelled,
}
use logistics_order_fulfillm.OrderApi.StateMachine.{can_transition}

-- The diagram of the documentation: forward along the chain, or cancelled before the payment.
pub data Next : OrderStatus → OrderStatus → Type 0 where
  pay : Next placed payment_confirmed
  cancel : Next placed cancelled
  pick : Next payment_confirmed picking
  pack : Next picking packed
  ship : Next packed shipped
  deliver : Next shipped delivered

ruleset arrows = (pay, cancel, pick, pack, ship, deliver)

can_transition_complete : {a b : OrderStatus} → Next a b → can_transition a b ≡ true
unfolding can_transition
can_transition_complete pay = refl
can_transition_complete cancel = refl
can_transition_complete pick = refl
can_transition_complete pack = refl
can_transition_complete ship = refl
can_transition_complete deliver = refl

can_transition_sound : (a b : OrderStatus) → can_transition a b ≡ true → Next a b
unfolding can_transition
can_transition_sound a b h = grind (arith, arrows)

-- The state machine allows exactly the steps of the relation `Next`: forward along the chain from
-- PLACED to DELIVERED, or from PLACED to CANCELLED.
pub can_transition_iff : (a b : OrderStatus) → (can_transition a b ≡ true) ↔ Next a b
can_transition_iff a b = (can_transition_sound a b, can_transition_complete)

-- How far along its life an order is.
abbrev pub rank : OrderStatus → ℕ
rank placed = 0
rank payment_confirmed = 1
rank picking = 2
rank packed = 3
rank shipped = 4
rank delivered = 5
rank cancelled = 5

pub rank-lt : (a b : OrderStatus) → can_transition a b ≡ true → rank a < rank b
unfolding can_transition
rank-lt a b h = ground arith

-- The accepted transitions from one status to another, in their order.
abbrev pub IsPath : OrderStatus → List OrderStatus → OrderStatus → Type 0
IsPath a [] b = a ≡ b
IsPath a (c ∷ cs) b = (can_transition a c ≡ true) × IsPath c cs b

rank-IsPath :
    (a b : OrderStatus) (cs : List OrderStatus) → IsPath a cs b → rank a + length cs ≤ rank b
rank-IsPath a b [] p = rw p (omega arith)
rank-IsPath a b (c ∷ cs) p = omega (arith, rank-lt a c p.0, rank-IsPath c b cs p.1)

rank_bound : (a : OrderStatus) → rank a ≤ 5
rank_bound a = ground arith

-- A path of allowed transitions has at most five of them, and a path that is not empty ends in
-- another status than it began with.
pub IsPath-bounds :
    (a b : OrderStatus) (cs : List OrderStatus)
    → IsPath a cs b
    → (length cs ≤ 5) × (1 ≤ length cs → a ≢ b)
IsPath-bounds a b cs p = (
  omega (arith, rank-IsPath a b cs p, rank_bound b),
  λ n e. absurd (omega (arith, rank-IsPath a b cs p, ap rank e)),
)
