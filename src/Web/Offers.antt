-- ===== src/Web/Offers.antt =====
-- What the buttons of the order form and of an order's page do
-- (apps/web/components/OrderForm.tsx, apps/web/components/TransitionActions.tsx).
use mathlib.Core.List.{append_assoc}
use logistics_order_fulfillm.Prelude.{
  ap, sym, ◌∙◌, ℕ, zero, suc, ◌+◌, ◌<◌, ◌≡◌, ◌≢◌, refl, String, Bool, true, false, not, none, some,
  List, [], ◌∷◌, ◌++◌, length, length-append, All, eqb, arith,
}
use logistics_order_fulfillm.Prelude.Everywhere.{All-append}
use logistics_order_fulfillm.Contracts.Status.{
  OrderStatus, placed, payment_confirmed, picking, packed, shipped, delivered, cancelled,
}
use logistics_order_fulfillm.OrderApi.StateMachine.{includes, can_transition}
use logistics_order_fulfillm.Web.StatusMachine.{next_transitions}
use logistics_order_fulfillm.Web.OrderForm.{
  OrderFormItem, OrderFormState, Action, item_added, item_removed, without, reduce, empty_item,
}
use logistics_order_fulfillm.Web.View.{Node, button}
use logistics_order_fulfillm.Web.FormPage.{
  items_nodes, fields, submit_button, item_nodes, errors_shown, order_form,
}
use logistics_order_fulfillm.Web.TransitionActions.{OrderAction, transition, transition_actions}

-- The buttons among the things that a page shows, with whether they are enabled and what they ask for.
button_of : {A : Type 0} → Node A → List (Bool × A)
button_of (button label enabled action) = (enabled, action) ∷ []
button_of _ = []

unfoldable pub buttons : {A : Type 0} → List (Node A) → List (Bool × A)
unfolding button_of
buttons [] = []
buttons (node ∷ nodes) = button_of node ++ buttons nodes

module _ {A : Type 0} where
  buttons-append : (xs ys : List (Node A)) → buttons (xs ++ ys) ≡ buttons xs ++ buttons ys
  unfolding buttons
  buttons-append [] ys = refl
  buttons-append (x ∷ xs) ys =
      ap (λ zs. button_of x ++ zs) (buttons-append xs ys)
      ∙ sym (append_assoc (button_of x) (buttons xs) (buttons ys))

All-buttons :
    {A : Type 0} (P : Bool × A → Type 0) (xs ys : List (Node A))
    → All P (buttons xs)
    → All P (buttons ys)
    → All P (buttons (xs ++ ys))
All-buttons P xs ys hx hy = rw (buttons-append xs ys) (All-append P (buttons xs) (buttons ys) hx hy)

buttons-errors_shown : (errors : List String) → buttons (errors_shown errors) ≡ []
unfolding errors_shown buttons
buttons-errors_shown [] = refl
buttons-errors_shown (e ∷ errors) = refl

length-without-in :
    (i : ℕ) (rows : List OrderFormItem)
    → i < length rows
    → length (without i rows) + 1 ≡ length rows
unfolding without
length-without-in i [] inside = absurd (omega arith)
length-without-in zero (row ∷ rows) inside = omega arith
length-without-in (suc i) (row ∷ rows) inside =
    omega (arith, length-without-in i rows (omega arith))

-- A button that is disabled would change nothing, and one that is enabled changes how many items
-- there are.
abbrev pub Works : OrderFormState → Bool × Action → Type 0
Works state (enabled, action) =
    (enabled ≡ false → reduce state action ≡ state)
    × (enabled ≡ true → length (reduce state action).items ≢ length state.items)

module _ (state : OrderFormState) where
  add-Works : Works state (true, item_added)
  unfolding reduce
  add-Works = (
    (λ e. absurd (ground arith)),
    λ e same. absurd (omega (arith, length-append state.items (empty_item ∷ []))),
  )

  remove-Works :
      (i : ℕ)
      → i < length state.items
      → Works state (not (eqb (length state.items) 1), item_removed i)
  unfolding reduce
  remove-Works i inside =
      ((λ e. ground arith), λ e same. absurd (ground (arith, length-without-in i state.items)))

  items_nodes-Works :
      (i : ℕ) (rows : List OrderFormItem)
      → i + length rows ≡ length state.items
      → All (Works state) (buttons (items_nodes (eqb (length state.items) 1) i rows))
  unfolding items_nodes item_nodes buttons
  items_nodes-Works i [] at = tt
  items_nodes-Works i (row ∷ rows) at =
      (remove-Works i (omega arith), items_nodes-Works (suc i) rows (omega arith))

-- Each button of the order form that is disabled would leave the form as it is, and each one that
-- is enabled changes the number of its items.
pub order_form-Works :
    (is_loading : Bool) (state : OrderFormState)
    → All (Works state) (buttons (order_form is_loading state))
unfolding order_form fields buttons
order_form-Works is_loading state =
    let errors = errors_shown state.validation_errors in
    let items = items_nodes (eqb (length state.items) 1) 0 state.items in
    All-buttons (Works state) errors (fields is_loading state)
      (rw (buttons-errors_shown state.validation_errors) tt)
      (
        add-Works state,
        All-buttons (Works state) items (submit_button is_loading ∷ [])
            (items_nodes-Works state 0 state.items (omega arith)) (unfold submit_button in tt),
      )

-- The transitions that the enabled buttons ask for.
unfoldable pub asked : List (Bool × OrderAction) → List OrderStatus
asked [] = []
asked ((true, transition to) ∷ rest) = to ∷ asked rest
asked (_ ∷ rest) = asked rest

-- While no transition is running, the enabled buttons of an order ask for exactly the transitions
-- that the state machine of the order API allows, and while one is running, no button is enabled.
pub transition_actions-can_transition :
    (from to : OrderStatus)
    → (includes (asked (buttons (transition_actions none from))) to ≡ can_transition from to)
      × ((pending : OrderStatus) → asked (buttons (transition_actions (some pending) from)) ≡ [])
unfolding asked buttons transition_actions next_transitions can_transition
transition_actions-can_transition placed to = (refl, λ pending. refl)
transition_actions-can_transition payment_confirmed to = (refl, λ pending. refl)
transition_actions-can_transition picking to = (refl, λ pending. refl)
transition_actions-can_transition packed to = (refl, λ pending. refl)
transition_actions-can_transition shipped to = (refl, λ pending. refl)
transition_actions-can_transition delivered to = (refl, λ pending. refl)
transition_actions-can_transition cancelled to = (refl, λ pending. refl)
