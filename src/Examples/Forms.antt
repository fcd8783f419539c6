-- ===== src/Examples/Forms.antt =====
-- The web interface at concrete inputs.
use logistics_order_fulfillm.Prelude.{
  ◌≡◌, refl, String, Option, none, some, false, [], ◌∷◌, length, ◌==◌, if◌then◌else◌,
}
use logistics_order_fulfillm.Contracts.Status.{OrderStatus, placed, cancelled}
use logistics_order_fulfillm.OrderApi.StateMachine.{includes, can_transition}
use logistics_order_fulfillm.Web.OrderForm.{OrderFormState, initial_state, empty_item}
use logistics_order_fulfillm.Web.FormPage.{order_form, fields, items_nodes}
use logistics_order_fulfillm.Web.OrdersPage.{
  JsInteger, negative, natural, SearchParams, page_of, limit_of,
}
use logistics_order_fulfillm.Web.TransitionActions.{transition_actions}
use logistics_order_fulfillm.Web.Offers.{buttons, asked, transition_actions-can_transition}
use logistics_order_fulfillm.Web.Format.{duration_of, hours_minutes}

transition_actions-can_transition_example :
    (includes (asked (buttons (transition_actions none placed))) cancelled
      ≡ can_transition placed cancelled)
    × ((pending : OrderStatus) → asked (buttons (transition_actions (some pending) placed)) ≡ [])
transition_actions-can_transition_example = transition_actions-can_transition placed cancelled

abbrev two_rows : OrderFormState
two_rows = record initial_state {
  items = empty_item ∷ empty_item ∷ [];
  validation_errors = "items.0.sku should not be empty" ∷ [];
}

-- two buttons that remove a row, and one that adds one
three_buttons : length (buttons (order_form false two_rows)) ≡ 3
unfolding buttons order_form fields items_nodes
three_buttons = refl

abbrev read_int : String → Option JsInteger
read_int s =
    if s == "-3" then some (negative 3) else if s == "500" then some (natural 500) else none

abbrev odd_params : SearchParams
odd_params = record { page = some "-3"; limit = some "500" }

odd_params_bounded :
    (page_of read_int odd_params ≡ natural 1) × (limit_of read_int odd_params ≡ 100)
unfolding page_of limit_of
odd_params_bounded = (refl, refl)

an_hour : duration_of 4000 ≡ hours_minutes 1 6
unfolding duration_of
an_hour = refl
