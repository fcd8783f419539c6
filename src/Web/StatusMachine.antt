-- ===== src/Web/StatusMachine.antt =====
-- apps/web/lib/statusMachine.ts
use logistics_order_fulfillm.Prelude.{List, [], ◌∷◌}
use logistics_order_fulfillm.Contracts.Status.{
  OrderStatus, placed, payment_confirmed, picking, packed, shipped, delivered, cancelled,
}

abbrev pub order_statuses : List OrderStatus
order_statuses =
    placed ∷ payment_confirmed ∷ picking ∷ packed ∷ shipped ∷ delivered ∷ cancelled ∷ []

unfoldable pub transitions : OrderStatus → List OrderStatus
transitions placed = payment_confirmed ∷ cancelled ∷ []
transitions payment_confirmed = picking ∷ []
transitions picking = packed ∷ []
transitions packed = shipped ∷ []
transitions shipped = delivered ∷ []
transitions delivered = []
transitions cancelled = []

-- Every status has its list, so the `?? []` of the source is not met.
unfoldable pub next_transitions : OrderStatus → List OrderStatus
unfolding transitions
next_transitions status = transitions status
