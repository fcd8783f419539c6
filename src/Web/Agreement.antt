-- ===== src/Web/Agreement.antt =====
-- The web interface against what the order API takes (apps/web/lib/statusMachine.ts,
-- apps/web/store/slices/orderFormSlice.ts).
use logistics_order_fulfillm.Prelude.{
  ℕ, zero, suc, ◌+◌, ◌≤◌, String, ◌≡◌, refl, List, [], ◌∷◌, length, length-append, arith,
}
use logistics_order_fulfillm.Contracts.Status.{OrderStatus}
use logistics_order_fulfillm.OrderApi.StateMachine.{includes, can_transition}
use logistics_order_fulfillm.Web.StatusMachine.{next_transitions}
use logistics_order_fulfillm.Web.OrderForm.{
  OrderFormItem, OrderFormState, ItemField, Action, customer_id_set, delivery_address_set,
  branch_id_set, item_added, item_removed, item_updated, validation_errors_set, order_form_reset,
  initial_state, without, update_item, reduce, empty_item,
}

-- The interface offers a transition exactly where the state machine of the order API allows it.
pub next_transitions-can_transition :
    (from to : OrderStatus) → includes (next_transitions from) to ≡ can_transition from to
unfolding includes next_transitions can_transition
next_transitions-can_transition from to = ground arith

abbrev pub reduce_all : OrderFormState → List Action → OrderFormState
reduce_all state [] = state
reduce_all state (a ∷ actions) = reduce_all (reduce state a) actions

length-without : (i : ℕ) (rows : List OrderFormItem) → length rows ≤ length (without i rows) + 1
unfolding without
length-without i [] = omega arith
length-without zero (row ∷ rows) = omega arith
length-without (suc i) (row ∷ rows) = omega (arith, length-without i rows)

length-update_item :
    (i : ℕ) (f : ItemField) (value : String) (rows : List OrderFormItem)
    → length (update_item i f value rows) ≡ length rows
unfolding update_item
length-update_item i f value [] = refl
length-update_item zero f value (row ∷ rows) = refl
length-update_item (suc i) f value (row ∷ rows) = omega (arith, length-update_item i f value rows)

reduce-items :
    (state : OrderFormState) (a : Action)
    → 1 ≤ length state.items
    → 1 ≤ length (reduce state a).items
unfolding reduce
reduce-items state (customer_id_set value) n = n
reduce-items state (delivery_address_set value) n = n
reduce-items state (branch_id_set value) n = n
reduce-items state item_added n = omega (arith, length-append state.items (empty_item ∷ []))
reduce-items state (item_removed i) n = ground (arith, length-without i state.items)
reduce-items state (item_updated i f value) n =
    omega (arith, length-update_item i f value state.items)
reduce-items state (validation_errors_set errors) n = n
reduce-items state order_form_reset n = omega arith

reduce_all-items_from :
    (actions : List Action) (state : OrderFormState)
    → 1 ≤ length state.items
    → 1 ≤ length (reduce_all state actions).items
reduce_all-items_from [] state n = n
reduce_all-items_from (a ∷ actions) state n =
    reduce_all-items_from actions (reduce state a) (reduce-items state a n)

-- After any actions on the order form, from its initial state, the form has at least one item row.
pub reduce_all-items : (actions : List Action) → 1 ≤ length (reduce_all initial_state actions).items
reduce_all-items actions = reduce_all-items_from actions initial_state (omega arith)
