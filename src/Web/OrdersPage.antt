-- ===== src/Web/OrdersPage.antt =====
-- apps/web/app/orders/page.tsx
use Prim.Native.String.{slice}
use Prim.Native.Nat.{min, max}
use logistics_order_fulfillm.Prelude.{
  ◌<>◌, ℕ, zero, String, false, Option, none, some, List, [], ◌∷◌, ◌++◌, map, Result, ok, err,
}
use logistics_order_fulfillm.Web.Types.{Order, PaginatedOrders}
use logistics_order_fulfillm.Web.Format.{Locale, format_money, format_date_time}
use logistics_order_fulfillm.Web.Pagination.{pagination}
use logistics_order_fulfillm.Web.View.{
  plain, titled, linked, Node, link, table_head, table_row, status_badge, page_header, empty_state,
  error_state, refresh_button, show_pagination, if_text,
}

-- What `parseInt` reads: an integer, or, of too many digits, an infinity.
pub data JsInteger : Type 0 where
  negative natural : ℕ → JsInteger
  infinity negative_infinity : JsInteger

pub record SearchParams : Type 0 where
  pub page : Option String
  pub limit : Option String

abbrev or_text : Option String → String → String
or_text none fallback = fallback
or_text (some s) fallback = s

-- `n || fallback`, of which NaN and 0 are falsy
or_number : Option JsInteger → ℕ → JsInteger
or_number none fallback = natural fallback
or_number (some (natural zero)) fallback = natural fallback
or_number (some (negative zero)) fallback = natural fallback
or_number (some n) fallback = n

-- `Math.max(1, n)`
at_least_one : JsInteger → JsInteger
at_least_one (negative n) = natural 1
at_least_one (natural n) = natural (max 1 n)
at_least_one infinity = infinity
at_least_one negative_infinity = natural 1

-- `Math.min(100, n)` of a number of at least one
at_most_hundred : JsInteger → ℕ
at_most_hundred (natural n) = min 100 n
at_most_hundred infinity = 100
at_most_hundred _ = 0

-- `none` is a thrown value that is no Error.
abbrev pub thrown_text : Option String → String → String
thrown_text none fallback = fallback
thrown_text (some message) fallback = message

-- The first eight characters of an id, with an ellipsis.
abbrev pub short_id : String → String
short_id id = slice id 0 8 <> "…"

module _ (parse_int : String → Option JsInteger) where
  unfoldable pub page_of : SearchParams → JsInteger
  unfolding or_number at_least_one
  page_of sp = at_least_one (or_number (parse_int (or_text sp.page "1")) 1)

  unfoldable pub limit_of : SearchParams → ℕ
  unfolding or_number at_least_one at_most_hundred
  limit_of sp = at_most_hundred (at_least_one (or_number (parse_int (or_text sp.limit "20")) 20))

  module _ {N A : Type 0} (locale : Locale N) (refresh : A) where
    order_row : Order → Node A
    order_row order = table_row (
        linked ("/orders/" <> order.id) (short_id order.id) order.id
        ∷ titled (short_id order.customer_id) order.customer_id
        ∷ status_badge order.status
        ∷ plain (format_money locale order.total_value)
        ∷ plain (format_date_time locale order.created_at)
        ∷ [])

    orders_table : PaginatedOrders → List Order → List (Node A)
    unfolding order_row
    orders_table result [] = empty_state "No orders yet." ∷ []
    orders_table result (order ∷ orders) =
        table_head ("Order" ∷ "Customer" ∷ "Status" ∷ "Total" ∷ "Created" ∷ [])
          ∷ map order_row (order ∷ orders)
        ++ show_pagination (pagination result.page result.total_pages result.limit "/orders")

    orders_body : Result (Option String) PaginatedOrders → List (Node A)
    unfolding orders_table
    orders_body (err e) =
        let error = thrown_text e "Failed to load orders." in
        if_text error
          (error_state "Couldn't load orders" ("Could not reach the order service: " <> error) none)
    orders_body (ok result) = orders_table result result.page_data

    -- The page, with `fetch_orders` of a page and a limit as it ends.
    unfoldable pub orders_page :
        (JsInteger → ℕ → Result (Option String) PaginatedOrders) → SearchParams → List (Node A)
    unfolding orders_body
    orders_page fetch_orders sp =
        page_header "Orders" none none none
          (refresh_button refresh false ∷ link "/orders/new" "New Order" ∷ [])
        ++ orders_body (fetch_orders (page_of sp) (limit_of sp))
