-- ===== src/Web/Pagination.antt =====
-- apps/web/components/Pagination.tsx
use Prim.Native.Nat.{min, max}
use logistics_order_fulfillm.Prelude.{
  ◌<>◌, ℕ, ◌+◌, ◌-◌, String, Option, none, some, List, [], ◌∷◌, ◌++◌, leb, ltb, decimal,
  if◌then◌else◌, Bool,
}

-- The target of a link, and its text.
pub record Href : Type 0 where
  pub base_path : String
  pub page : ℕ
  pub limit : ℕ

unfoldable pub href_text : Href → String
href_text h = h.base_path <> "?page=" <> decimal h.page <> "&limit=" <> decimal h.limit

-- What is shown: a link, or the same word without one.
pub record PaginationView : Type 0 where
  pub previous : Option Href
  pub label : String
  pub next : Option Href

abbrev pub link_if : Bool → Href → Option Href
link_if test h = if test then some h else none

unfoldable pub pagination : ℕ → ℕ → ℕ → String → Option PaginationView
pagination page total_pages limit base_path =
    if leb total_pages 1
    then none
    else some (record {
      previous =
          link_if (ltb 1 page)
            (record { base_path = base_path; page = max 1 (page - 1); limit = limit });
      label = "Page " <> decimal page <> " of " <> decimal total_pages;
      next =
          link_if (ltb page total_pages)
            (record { base_path = base_path; page = min total_pages (page + 1); limit = limit });
    })

abbrev listed : Option Href → List Href
listed none = []
listed (some h) = h ∷ []

abbrev pub links : Option PaginationView → List Href
links none = []
links (some v) = listed v.previous ++ listed v.next
