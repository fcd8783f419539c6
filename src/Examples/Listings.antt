-- ===== src/Examples/Listings.antt =====
-- The pages of the orders and their links at concrete inputs.
use mathlib.Core.List.{Perm}
use logistics_order_fulfillm.Prelude.{
  ℕ, ◌≡◌, ◌≤◌, refl, List, [], ◌∷◌, length, map, All, arith, true, false, leb, if◌then◌else◌,
}
use logistics_order_fulfillm.OrderApi.Entities.{OrderRow}
use logistics_order_fulfillm.OrderApi.Store.{Db}
use logistics_order_fulfillm.OrderApi.Listing.{
  Ties, find_all, newest_first, insert_desc, total_pages,
}
use logistics_order_fulfillm.OrderApi.Pages.{pages, HasTimes, with_items, IsNewestFirst, pages-Perm}
use logistics_order_fulfillm.Web.Pagination.{pagination, links}
use logistics_order_fulfillm.Web.Paging.{pagination-find_all}
use logistics_order_fulfillm.Examples.Samples.{no_orders, placed_row}

-- the query's choice between two rows of one time
abbrev earlier_row : Ties
earlier_row r q = true

abbrev later_row : Ties
later_row r q = false

-- Five orders, of which the fourth is as old as the second.
abbrev five : Db ℕ
five = record no_orders.db {
  orders =
      record placed_row { id = "order-1"; created_at = 100 }
      ∷ record placed_row { id = "order-2"; created_at = 300 }
      ∷ record placed_row { id = "order-3"; created_at = 200 }
      ∷ record placed_row { id = "order-4"; created_at = 300 }
      ∷ record placed_row { id = "order-5"; created_at = 400 }
      ∷ [];
}

-- The five at different times.
abbrev untied : Db ℕ
untied = record five {
  orders =
      record placed_row { id = "order-1"; created_at = 100 }
      ∷ record placed_row { id = "order-2"; created_at = 300 }
      ∷ record placed_row { id = "order-3"; created_at = 200 }
      ∷ record placed_row { id = "order-4"; created_at = 301 }
      ∷ record placed_row { id = "order-5"; created_at = 400 }
      ∷ [];
}

abbrev by_page : ℕ → Ties
by_page page = if leb page 1 then earlier_row else later_row

untied-HasTimes : HasTimes untied.orders
untied-HasTimes = (
  (λ e. omega arith, (λ e. omega arith, (λ e. omega arith, (λ e. omega arith, tt)))),
  (
    (λ e. omega arith, (λ e. omega arith, (λ e. omega arith, tt))),
    ((λ e. omega arith, (λ e. omega arith, tt)), ((λ e. omega arith, tt), (tt, tt))),
  ),
)

pages-Perm_example :
    (rows : List OrderRow) × (pages by_page 2 untied (find_all (by_page 1) 1 2 untied).total_pages
      ≡ map (with_items by_page 2 untied) rows)
    × Perm rows untied.orders
    × IsNewestFirst rows
pages-Perm_example = pages-Perm by_page 2 untied untied-HasTimes (omega arith)

-- Two queries that choose differently show one order twice.
shown_twice :
    (map (λ o. o.id) (find_all later_row 1 2 five).page_data ≡ "order-5" ∷ "order-4" ∷ [])
    × (map (λ o. o.id) (find_all earlier_row 2 2 five).page_data ≡ "order-4" ∷ "order-3" ∷ [])
unfolding find_all newest_first insert_desc
shown_twice = (refl, refl)

second_page_shown : 1 ≤ length (find_all earlier_row 2 2 five).page_data
unfolding find_all newest_first insert_desc
second_page_shown = omega arith

pagination-find_all_example :
    let r = find_all earlier_row 2 2 five in
    All
      (λ h.
        (1 ≤ h.page)
        × (h.limit ≡ 2)
        × (1 ≤ length (find_all (by_page h.page) h.page h.limit five).page_data))
      (links (pagination r.page r.total_pages r.limit "/orders"))
pagination-find_all_example =
    pagination-find_all earlier_row (λ h. by_page h.page) five 2 2 "/orders" (omega arith)
      (omega arith) second_page_shown

two_links : map (λ h. h.page) (links (pagination 2 (total_pages 5 2) 2 "/orders")) ≡ 1 ∷ 3 ∷ []
unfolding pagination total_pages
two_links = refl
