-- ===== src/OrderApi/History.antt =====
-- The status changes that the outbox records of an order, and their replay.
use logistics_order_fulfillm.Prelude.{
  String, ◌≡◌, refl, Bool, true, false, ◌&&◌, Option, none, some, List, [], ◌∷◌, ◌++◌, ◌==◌,
  if◌then◌else◌, arith,
}
use mathlib.Core.List.{append_assoc}
use logistics_order_fulfillm.Contracts.Status.{OrderStatus, placed, same}
use logistics_order_fulfillm.OrderApi.StateMachine.{can_transition}
use logistics_order_fulfillm.OrderApi.Entities.{
  Payload, OutboxEntry, status_changed, reserve, notification,
}

-- `previous_status` and `new_status` of an event.
abbrev pub Change : Type 0
Change = Option OrderStatus × OrderStatus

module _ {N : Type 0} where
  -- The changes of the order `id` that one payload records: one, or none.
  unfoldable pub changes : String → Payload N → List Change
  changes id (status_changed e) =
      if e.order_id == id then (e.previous_status, e.new_status) ∷ [] else []
  changes id (reserve p) = []
  changes id (notification p) = []

  unfoldable pub history : String → List (OutboxEntry N) → List Change
  history id [] = []
  history id (entry ∷ entries) = changes id entry.payload ++ history id entries

  pub history-append :
      (id : String) (xs ys : List (OutboxEntry N))
      → history id (xs ++ ys) ≡ history id xs ++ history id ys
  unfolding history
  history-append id [] ys = refl
  history-append id (x ∷ xs) ys =
      rw (
        history-append id xs ys,
        append_assoc (changes id x.payload) (history id xs) (history id ys),
      )

-- A first event places the order; each later one leaves the status that the last one set, by a
-- transition that the state machine accepts.
unfoldable pub is_legal : Option OrderStatus → Change → Bool
is_legal none (none, to) = same placed to
is_legal none (some from, to) = false
is_legal (some at) (none, to) = false
is_legal (some at) (some from, to) = same at from && can_transition from to

-- The status after the changes; `none` inside is "not placed", `none` outside an illegal change.
unfoldable pub replay : Option OrderStatus → List Change → Option (Option OrderStatus)
replay at [] = some at
replay at (c ∷ cs) = let rest = replay (some c.1) cs in if is_legal at c then rest else none

pub replay-append :
    (at : Option OrderStatus) (cs : List Change) (c : Change) (last : Option OrderStatus)
    → replay at cs ≡ some last
    → is_legal last c ≡ true
    → replay at (cs ++ c ∷ []) ≡ some (some c.1)
unfolding replay
replay-append at [] c last h l = ground arith
replay-append at (d ∷ cs) c last h l = ground (arith, replay-append (some d.1) cs c last)
