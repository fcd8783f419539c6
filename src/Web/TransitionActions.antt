-- ===== src/Web/TransitionActions.antt =====
-- apps/web/components/TransitionActions.tsx, with AutoRefreshToggle.tsx beside it on an order's page.
use logistics_order_fulfillm.Prelude.{
  ◌<>◌, ℕ, ◌+◌, ◌/◌, String, Bool, true, false, not, Option, none, some, List, [], ◌∷◌, map, Result,
  ok, err, decimal, if◌then◌else◌,
}
use logistics_order_fulfillm.Contracts.Status.{OrderStatus, same}
use logistics_order_fulfillm.Web.StatusMachine.{next_transitions}
use logistics_order_fulfillm.Web.Styles.{status_style}
use logistics_order_fulfillm.Web.Client.{FetchBaseQueryError, rtk_error_messages}
use logistics_order_fulfillm.Web.Ui.{UiState, toast_added, success, error, reduce_ui}
use logistics_order_fulfillm.Web.View.{Node, button, paragraph, checkbox}

-- What the controls of an order's page ask for.
pub data OrderAction : Type 0 where
  refresh : OrderAction
  transition : OrderStatus → OrderAction
  auto_refresh_enabled_set : Bool → OrderAction

-- Is this target the one that a running mutation was called with?
is_pending_target : Option OrderStatus → OrderStatus → Bool
is_pending_target none target = false
is_pending_target (some pending) target = same pending target

is_loading : Option OrderStatus → Bool
is_loading none = false
is_loading (some pending) = true

transition_button : Option OrderStatus → OrderStatus → Node OrderAction
unfolding is_pending_target is_loading
transition_button pending target =
    button
      (if is_pending_target pending target
        then "Updating…"
        else "Mark as " <> (status_style target).label)
      (not (is_loading pending)) (transition target)

buttons_or_text : Option OrderStatus → List OrderStatus → List (Node OrderAction)
unfolding transition_button
buttons_or_text pending [] =
    paragraph "No further transitions — this order is in a terminal state." ∷ []
buttons_or_text pending (target ∷ targets) = map (transition_button pending) (target ∷ targets)

-- The component: `pending` is the target of the mutation that is running, if one is.
unfoldable pub transition_actions : Option OrderStatus → OrderStatus → List (Node OrderAction)
unfolding buttons_or_text
transition_actions pending status = buttons_or_text pending (next_transitions status)

-- The first message of an error; there may be none, which leaves `message` undefined.
first_message : List String → Option String
first_message [] = none
first_message (message ∷ messages) = some message

-- After a transition that was asked for: the action for the toasts, and whether the page refreshes.
-- The text of a toast without a message is its parameter `undefined`.
unfoldable pub after_transition :
    String
    → String
    → OrderStatus
    → Result (Option FetchBaseQueryError) (Unit {0})
    → UiState
    → UiState × Bool
unfolding first_message
after_transition undefined id new_status (ok order) ui = (
  reduce_ui ui
      (toast_added id success ("Order marked as " <> (status_style new_status).label <> ".")),
  true,
)
after_transition undefined id new_status (err e) ui = (
  reduce_ui ui (
      toast_added id error (elim (first_message (rtk_error_messages e)) [
        | none ↦ undefined
        | some message ↦ message
      ])),
  false,
)

-- AutoRefreshToggle.tsx; `Math.round` of a half goes up.
unfoldable pub auto_refresh_toggle : ℕ → Bool → Node OrderAction
auto_refresh_toggle interval_ms enabled =
    checkbox ("Auto-refresh (" <> decimal ((interval_ms + 500) / 1000) <> "s)") enabled
      auto_refresh_enabled_set

-- Its effect: the interval of the refreshes, if there is one.
unfoldable pub auto_refresh_interval : ℕ → Bool → Option ℕ
auto_refresh_interval interval_ms enabled = if enabled then some interval_ms else none
