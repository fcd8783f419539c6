-- ===== src/Web/Toasts.antt =====
-- apps/web/components/Toast.tsx, with LoadingState.tsx and DebugRuntimePanel.tsx: the small panels
-- that no page has of its own.
use logistics_order_fulfillm.Prelude.{
  Bool, Bool-cases, List, Option, String, [], arith, eq_iff, eq_refl, false, if◌then◌else◌, inl,
  inr, keep, none, not, refl, some, true, ℕ, ◌<>◌, ◌==◌, ◌||◌, ◌∷◌, ◌≡◌, ◌⊎◌,
}
use logistics_order_fulfillm.Web.Ui.{
  ToastType, success, error, info, Toast, UiState, UiAction, toast_added, toast_dismissed,
  reduce_ui,
}

-- `icon_component` is the name of the icon's component.
pub record ToastStyle : Type 0 where
  pub border : String
  pub icon : String
  pub icon_component : String

-- TYPE_STYLE
unfoldable pub type_style : ToastType → ToastStyle
type_style success = record {
  border = "border-l-green-600";
  icon = "text-green-600";
  icon_component = "CheckCircle2";
}
type_style error = record {
  border = "border-l-red-600";
  icon = "text-red-600";
  icon_component = "XCircle";
}
type_style info = record {
  border = "border-l-indigo-600";
  icon = "text-indigo-600";
  icon_component = "Info";
}

-- `durationMs = 4000`
abbrev pub duration_or : Option ℕ → ℕ
duration_or none = 4000
duration_or (some duration_ms) = duration_ms

-- The timer that a toast sets when it is shown: its delay, and what it dispatches.
unfoldable pub toast_timer : Option ℕ → Toast → ℕ × UiAction
toast_timer duration_ms toast = (duration_or duration_ms, toast_dismissed toast.id)

-- The timers of some toasts, one after the other.
unfoldable pub fire_timers : Option ℕ → List Toast → UiState → UiState
fire_timers duration_ms [] state = state
fire_timers duration_ms (toast ∷ toasts) state =
    fire_timers duration_ms toasts (reduce_ui state (toast_timer duration_ms toast).1)

-- LoadingState.tsx: the label of its status, "Loading…" if none is given.
unfoldable pub loading_label : Option String → String
loading_label none = "Loading…"
loading_label (some label) = label

pub data DebugAction : Type 0 where
  fire_toast trigger_error : DebugAction

-- A click in DebugRuntimePanel.tsx: what it dispatches, or that the next render throws.
unfoldable pub debug_click : String → String → DebugAction → Option UiAction × Bool
debug_click id label fire_toast =
    (some (toast_added id success ("Test toast from " <> label)), false)
debug_click id label trigger_error = (none, true)

-- The error of a render, if it throws.
unfoldable pub debug_render : String → Bool → Option String
debug_render label should_throw =
    if should_throw then some ("Manual " <> label <> " error") else none

-- a toast with this id is shown
shows : String → List Toast → Bool
shows id [] = false
shows id (t ∷ ts) = t.id == id || shows id ts

shows-keep :
    (id other : String) (ts : List Toast)
    → shows id (keep (λ t. not (t.id == other)) ts) ≡ (if other == id then false else shows id ts)
unfolding shows
shows-keep id other [] = ground arith
shows-keep id other (t ∷ ts) =
    ground (arith, shows-keep id other ts, eq_iff t.id other, eq_iff t.id id, eq_iff other id)

shows-fire_timers :
    (duration_ms : Option ℕ) (id : String) (ts : List Toast) (state : UiState)
    → (shows id ts ≡ true) ⊎ (shows id state.toasts ≡ false)
    → shows id (fire_timers duration_ms ts state).toasts ≡ false
unfolding fire_timers shows toast_timer reduce_ui
shows-fire_timers duration_ms id [] state h = ground arith
shows-fire_timers duration_ms id (t ∷ ts) state h =
    shows-fire_timers duration_ms id ts (reduce_ui state (toast_timer duration_ms t).1)
      (elim (Bool-cases (shows id ts)) [
        | inl there ↦ inl there
        | inr absent ↦ inr (ground (arith, shows-keep id t.id state.toasts))
      ])

nothing_shown : (ts : List Toast) → ((id : String) → shows id ts ≡ false) → ts ≡ []
unfolding shows
nothing_shown [] h = refl
nothing_shown (t ∷ ts) h = absurd (ground (arith, h t.id, eq_refl t.id))

-- Once the timers of all toasts that are shown have fired, in their order, none is shown.
pub fire_timers_clear :
    (duration_ms : Option ℕ) (state : UiState)
    → (fire_timers duration_ms state.toasts state).toasts ≡ []
fire_timers_clear duration_ms state =
    nothing_shown (fire_timers duration_ms state.toasts state).toasts (λ id.
      shows-fire_timers duration_ms id state.toasts state (Bool-cases (shows id state.toasts)))
