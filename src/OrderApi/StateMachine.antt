-- ===== src/OrderApi/StateMachine.antt =====
-- apps/order-api/src/orders/order-state-machine.ts
use logistics_order_fulfillm.Prelude.{Bool, false, ◌||◌, List, [], ◌∷◌}
use logistics_order_fulfillm.Contracts.Status.{
  OrderStatus, placed, payment_confirmed, picking, packed, shipped, delivered, cancelled, same,
}

unfoldable pub transitions : OrderStatus → List OrderStatus
transitions placed = payment_confirmed ∷ cancelled ∷ []
transitions payment_confirmed = picking ∷ []
transitions picking = packed ∷ []
transitions packed = shipped ∷ []
transitions shipped = delivered ∷ []
transitions delivered = []
transitions cancelled = []

-- Array.prototype.includes
unfoldable pub includes : List OrderStatus → OrderStatus → Bool
includes [] s = false
includes (t ∷ ts) s = same t s || includes ts s

-- Every status has its list, so the `?? false` of the source is not met.
unfoldable pub can_transition : OrderStatus → OrderStatus → Bool
unfolding transitions includes
can_transition from to = includes (transitions from) to
