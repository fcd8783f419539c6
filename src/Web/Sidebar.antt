-- ===== src/Web/Sidebar.antt =====
-- apps/web/components/Sidebar.tsx: the links of the sidebar, of which the one for the page that is
-- shown stands out.
use logistics_order_fulfillm.Prelude.{
  Bool, List, Option, String, [], none, not, some, ◌&&◌, ◌<>◌, ◌∷◌, ◌≡◌, ℕ, ap, arith, keep, length,
  subst, true, ◌∙◌, if◌then◌else◌, sym, ◌||◌,
}
use Prim.Native.String.append
use Prim.Native.Char.{Char, code}
use text.Mathlib.TextLemmas.{append_assoc}
use text.Mathlib.Text.{starts_with}
use text.Mathlib.TextEquality.{starts_with_iff}

-- `icon` is the name of the icon's component.
pub record SidebarLink : Type 0 where
  pub href : String
  pub label : String
  pub icon : String
  pub matches : String → Bool

-- LINKS
abbrev pub sidebar_links : List SidebarLink
sidebar_links =
    record {
      href = "/orders";
      label = "Orders";
      icon = "ClipboardList";
      matches = λ p. starts_with p "/orders" && not (starts_with p "/orders/new");
    }
    ∷ record {
      href = "/orders/new";
      label = "New Order";
      icon = "PackagePlus";
      matches = λ p. starts_with p "/orders/new";
    }
    ∷ record {
      href = "/analytics";
      label = "Analytics";
      icon = "BarChart3";
      matches = λ p. starts_with p "/analytics";
    }
    ∷ record {
      href = "/fraud";
      label = "Fraud Flags";
      icon = "Shield";
      matches = λ p. starts_with p "/fraud";
    }
    ∷ []

-- A link as it is shown: its target, its text, which is its tooltip too, and whether it stands out.
pub record ShownLink : Type 0 where
  pub href : String
  pub label : String
  pub icon : String
  pub active : Bool

-- `pathname ?? ""`
or_empty : Option String → String
or_empty none = ""
or_empty (some p) = p

show_links : String → List SidebarLink → List ShownLink
show_links p [] = []
show_links p (l ∷ ls) =
    record { href = l.href; label = l.label; icon = l.icon; active = l.matches p } ∷ show_links p ls

unfoldable pub sidebar : Option String → List ShownLink
unfolding or_empty show_links
sidebar pathname = show_links (or_empty pathname) sidebar_links

first : String → ℕ
first String.[] = 0
first (String.◌∷◌ c s) = code c

-- the second letter of a path
letter : String → ℕ
letter String.[] = 0
letter (String.◌∷◌ c s) = first s

letter-append : (c d : Char) (s u : String) → letter (String.◌∷◌ c (String.◌∷◌ d s) <> u) ≡ code d
unfolding letter first
letter-append c d s u =
    ap letter (append.cons c (String.◌∷◌ d s) u ∙ ap (String.◌∷◌ c) (append.cons d s u))

letter-starts_with :
    (p : String) (c d : Char) (s : String)
    → starts_with p (String.◌∷◌ c (String.◌∷◌ d s)) ≡ true
    → letter p ≡ code d
letter-starts_with p c d s h =
    let (u, split) = (starts_with_iff p (String.◌∷◌ c (String.◌∷◌ d s))).0 h in
    subst (λ (q : String). letter q ≡ code d) split (letter-append c d s u)

below : (p : String) → starts_with p "/orders/new" ≡ true → starts_with p "/orders" ≡ true
below p h =
    let (u, split) = (starts_with_iff p "/orders/new").0 h in
    (starts_with_iff p "/orders").1 ("/new" <> u, sym (append_assoc "/orders" "/new" u) ∙ split)

-- On a page below /orders, /analytics or /fraud exactly one link of the sidebar stands out, and on
-- every other page none does.
pub sidebar_active :
    (p : String)
    → length (keep (λ l. l.active) (sidebar (some p))) ≡ (
        if starts_with p "/orders" || starts_with p "/analytics" || starts_with p "/fraud"
        then 1
        else 0)
unfolding sidebar
sidebar_active p = ground (
  arith,
  below p,
  letter-starts_with p "/" "o" "rders",
  letter-starts_with p "/" "a" "nalytics",
  letter-starts_with p "/" "f" "raud",
)
