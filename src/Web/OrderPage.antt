-- ===== src/Web/OrderPage.antt =====
-- apps/web/app/orders/[id]/page.tsx
use logistics_order_fulfillm.Prelude.{
  ◌<>◌, Bool, Option, none, some, List, [], ◌∷◌, ◌++◌, map, Result, ok, err, decimal, false,
}
use logistics_order_fulfillm.Contracts.Status.{OrderStatus}
use logistics_order_fulfillm.Web.Types.{OrderItem, Order}
use logistics_order_fulfillm.Web.Format.{Locale, format_money, format_number, format_date_time}
use logistics_order_fulfillm.Web.TransitionActions.{
  OrderAction, refresh, transition_actions, auto_refresh_toggle,
}
use logistics_order_fulfillm.Web.View.{
  plain, titled, Node, subheading, detail, table_head, table_row, status_badge, page_header,
  refresh_button,
}

-- How the page ends: it is shown, it is the page of a missing order, or the fetch throws.
pub data OrderPageResult (E : Type 0) : Type 0 where
  shown : List (Node OrderAction) → OrderPageResult E
  not_found : OrderPageResult E
  thrown : E → OrderPageResult E

module _ {N : Type 0} (locale : Locale N) (pending : Option OrderStatus) (auto_refresh : Bool) where
  item_row : OrderItem → Node OrderAction
  item_row item = table_row (
      plain item.sku
      ∷ plain (decimal item.qty)
      ∷ plain (format_money locale item.unit_price)
      ∷ plain (format_number locale (locale.times (locale.number item.unit_price) item.qty))
      ∷ [])

  unfoldable pub order_view : Order → List (Node OrderAction)
  unfolding item_row
  order_view order =
      page_header ("Order " <> order.id) (some order.id) (some ("trace: " <> order.trace_id))
        (some order.trace_id)
        (auto_refresh_toggle 5000 auto_refresh ∷ refresh_button refresh false ∷ [])
      ++ detail "Status" (status_badge order.status) ∷ transition_actions pending order.status
      ++ detail "Customer" (titled order.customer_id order.customer_id)
        ∷ detail "Branch" (plain order.branch_id)
        ∷ detail "Delivery Address" (plain order.delivery_address)
        ∷ detail "Total" (plain (format_money locale order.total_value))
        ∷ detail "Created" (plain (format_date_time locale order.created_at))
        ∷ detail "Updated" (plain (format_date_time locale order.updated_at))
        ∷ subheading "Items" none
        ∷ table_head ("SKU" ∷ "Qty" ∷ "Unit Price" ∷ "Subtotal" ∷ [])
        ∷ map item_row order.items

  -- The page, by what `fetchOrder` ends with.
  unfoldable pub order_page : {E : Type 0} → Result E (Option Order) → OrderPageResult E
  order_page (err e) = thrown e
  order_page (ok none) = not_found
  order_page (ok (some order)) = shown (order_view order)
