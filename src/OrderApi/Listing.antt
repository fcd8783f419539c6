-- ===== src/OrderApi/Listing.antt =====
-- `findAll` of apps/order-api/src/orders/orders.service.ts
use logistics_order_fulfillm.Prelude.{
  ℕ, ◌+◌, ◌-◌, ◌*◌, ◌/◌, List, [], ◌∷◌, map, length, take, drop, leb, ltb, Bool, if◌then◌else◌,
}
use logistics_order_fulfillm.OrderApi.Entities.{OrderRow, Order}
use logistics_order_fulfillm.OrderApi.Store.{Db, items_of}

pub record PaginatedOrders : Type 0 where
  -- the field `data` of the source
  pub page_data : List Order
  pub total : ℕ
  pub page : ℕ
  pub limit : ℕ
  pub total_pages : ℕ

-- Which of two rows of one creation time a query puts first. The statement does not say, so each
-- query has its own.
abbrev pub Ties : Type 0
Ties = OrderRow → OrderRow → Bool

unfoldable pub insert_desc : Ties → OrderRow → List OrderRow → List OrderRow
insert_desc ties r [] = r ∷ []
insert_desc ties r (q ∷ rows) =
    let later = q ∷ insert_desc ties r rows in
    if ltb r.created_at q.created_at
    then later
    else if ltb q.created_at r.created_at
    then r ∷ q ∷ rows
    else if ties r q
    then r ∷ q ∷ rows
    else later

-- ORDER BY created_at DESC
unfoldable pub newest_first : Ties → List OrderRow → List OrderRow
unfolding insert_desc
newest_first ties [] = []
newest_first ties (r ∷ rows) = insert_desc ties r (newest_first ties rows)

abbrev or_one : ℕ → ℕ
or_one n = if leb 1 n then n else 1

-- `Math.ceil(total / limit) || 1`
unfoldable pub total_pages : ℕ → ℕ → ℕ
total_pages total limit = or_one ((total + limit - 1) / limit)

unfoldable pub find_all : {N : Type 0} → Ties → ℕ → ℕ → Db N → PaginatedOrders
unfolding newest_first total_pages
find_all ties page limit db =
    let rows = take limit (drop ((page - 1) * limit) (newest_first ties db.orders)) in
    record {
      page_data = map (λ row. record { row = row; items = items_of row.id db.order_items }) rows;
      total = length db.orders;
      page = page;
      limit = limit;
      total_pages = total_pages (length db.orders) limit;
    }
