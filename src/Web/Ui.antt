-- ===== src/Web/Ui.antt =====
-- apps/web/store/slices/uiSlice.ts
use logistics_order_fulfillm.Prelude.{
  String, Bool, false, not, Option, none, List, [], ◌∷◌, ◌++◌, ◌==◌, keep,
}

pub data ToastType : Type 0 where
  success error info : ToastType

pub record Toast : Type 0 where
  pub id : String
  pub type : ToastType
  pub message : String

pub record UiState : Type 0 where
  pub toasts : List Toast
  pub auto_refresh_enabled : Bool
  pub last_error : Option String

abbrev pub ui_initial_state : UiState
ui_initial_state = record { toasts = []; auto_refresh_enabled = false; last_error = none }

-- One constructor for each reducer; the id of a toast is the one that `prepare` generates.
pub data UiAction : Type 0 where
  toast_added : String → ToastType → String → UiAction
  toast_dismissed : String → UiAction
  auto_refresh_enabled_set : Bool → UiAction
  last_error_set : Option String → UiAction

unfoldable pub reduce_ui : UiState → UiAction → UiState
reduce_ui state (toast_added id type message) = record state {
  toasts = state.toasts ++ record { id = id; type = type; message = message } ∷ [];
}
reduce_ui state (toast_dismissed id) = record state {
  toasts = keep (λ t. not (t.id == id)) state.toasts;
}
reduce_ui state (auto_refresh_enabled_set value) = record state { auto_refresh_enabled = value }
reduce_ui state (last_error_set value) = record state { last_error = value }
