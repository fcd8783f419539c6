-- ===== src/Web/View.antt =====
-- What a page of apps/web shows, in its order and without its layout and styles, and what its
-- controls do: `A` is the type of the things that they ask for. The small components of
-- apps/web/components that the pages share.
use logistics_order_fulfillm.Prelude.{
  String, Bool, true, not, Option, none, some, List, [], ◌∷◌, ◌++◌, if◌then◌else◌, ◌==◌,
}
use logistics_order_fulfillm.Contracts.Status.{OrderStatus}
use logistics_order_fulfillm.Web.Types.{FraudSeverity}
use logistics_order_fulfillm.Web.Styles.{status_style, severity_style}
use logistics_order_fulfillm.Web.Pagination.{Href, PaginationView, href_text}
use logistics_order_fulfillm.Web.Ui.{Toast}

pub data Cell : Type 0 where
  -- a text, and the tooltip of one
  plain : String → Cell
  titled : String → String → Cell
  -- a link's target, text and tooltip
  linked : String → String → String → Cell
  -- a badge's styles and text
  badge : String → String → String → Cell

pub data Node (A : Type 0) : Type 0 where
  -- a title with its tooltip
  heading : String → Option String → Node A
  subheading : String → Option String → Node A
  paragraph : String → Node A
  -- a list of errors
  bullets : List String → Node A
  link : String → String → Node A
  -- a button's text, whether it is enabled, and what it asks for
  button : String → Bool → A → Node A
  submit : String → Bool → Node A
  -- a label or a placeholder, the value, and what a new value asks for
  input : String → String → (String → A) → Node A
  checkbox : String → Bool → (Bool → A) → Node A
  table_head : List String → Node A
  table_row : List Cell → Node A
  -- a name and its value
  detail : String → Cell → Node A

-- StatusBadge.tsx
unfoldable pub status_badge : OrderStatus → Cell
status_badge status =
    let style = status_style status in badge style.pill style.dot_class style.label

-- SeverityBadge.tsx
unfoldable pub severity_badge : FraudSeverity → Cell
severity_badge severity =
    let style = severity_style severity in badge style.pill style.dot_class style.label

module _ {A : Type 0} where
  abbrev pub none_if_absent : Option String → Option String → List (Node A)
  none_if_absent none tooltip = []
  none_if_absent (some subtitle) tooltip = subheading subtitle tooltip ∷ []

  -- PageHeader.tsx; an absent subtitle shows nothing.
  unfoldable pub page_header :
      String → Option String → Option String → Option String → List (Node A) → List (Node A)
  page_header title title_attr subtitle subtitle_attr actions =
      heading title title_attr ∷ none_if_absent subtitle subtitle_attr ++ actions

  -- EmptyState.tsx
  unfoldable pub empty_state : String → Node A
  empty_state label = paragraph label

  -- ErrorState.tsx, with an action or without one
  unfoldable pub error_state : String → String → Option (String × A) → List (Node A)
  error_state title message none = heading title none ∷ paragraph message ∷ []
  error_state title message (some (label, on_action)) =
      heading title none ∷ paragraph message ∷ button label true on_action ∷ []

  -- `{error && …}`: the empty text is falsy.
  abbrev pub if_text : String → List (Node A) → List (Node A)
  if_text text nodes = if text == "" then [] else nodes

  -- RefreshButton.tsx
  unfoldable pub refresh_button : A → Bool → Node A
  refresh_button refresh is_pending =
      button (if is_pending then "Refreshing…" else "Refresh") (not is_pending) refresh

  abbrev pub link_or_text : String → Option Href → Node A
  link_or_text label none = paragraph label
  link_or_text label (some h) = link (href_text h) label

  abbrev pub show_pagination : Option PaginationView → List (Node A)
  show_pagination none = []
  show_pagination (some v) =
      link_or_text "← Previous" v.previous ∷ paragraph v.label ∷ link_or_text "Next →" v.next ∷ []

  -- Toast.tsx and ToastHost.tsx; the dismissal after four seconds is an event of its own.
  unfoldable pub toast_host : (String → A) → List Toast → List (Node A)
  toast_host dismiss [] = []
  toast_host dismiss (toast ∷ toasts) =
      paragraph toast.message ∷ button "Dismiss" true (dismiss toast.id) ∷ toast_host dismiss toasts
