-- ===== src/Web/FormPage.antt =====
-- apps/web/components/OrderForm.tsx
use logistics_order_fulfillm.Prelude.{
  ◌<>◌, ℕ, suc, String, Bool, true, not, Option, some, List, [], ◌∷◌, ◌++◌, map, length, Result, ok,
  err, eqb, if◌then◌else◌,
}
use logistics_order_fulfillm.Web.OrderForm.{
  OrderFormItem, OrderFormState, sku, qty, unit_price, Action, customer_id_set,
  delivery_address_set, branch_id_set, item_added, item_removed, item_updated,
  validation_errors_set, order_form_reset, reduce,
}
use logistics_order_fulfillm.Web.Ui.{UiState, toast_added, success, reduce_ui}
use logistics_order_fulfillm.Web.Client.{FetchBaseQueryError, rtk_error_messages}
use logistics_order_fulfillm.Web.View.{Node, bullets, input, button, submit}

-- The body of the request; a number of JavaScript is an `N`.
pub record PayloadItem (N : Type 0) : Type 0 where
  pub sku : String
  pub qty : N
  pub unit_price : N

pub record CreateOrderPayload (N : Type 0) : Type 0 where
  pub customer_id : String
  pub delivery_address : String
  pub branch_id : String
  pub items : List (PayloadItem N)

-- The form, the toasts, and the path that the router was sent to.
pub record FormPage : Type 0 where
  pub form : OrderFormState
  pub ui : UiState
  pub pushed : Option String

-- `trim` and `number` are `String.prototype.trim` and `Number`.
module _ {N : Type 0} (trim : String → String) (number : String → N) where
  payload_item : OrderFormItem → PayloadItem N
  payload_item row = record {
    sku = trim row.sku;
    qty = number row.qty;
    unit_price = number row.unit_price;
  }

  unfoldable pub payload_of : OrderFormState → CreateOrderPayload N
  unfolding payload_item
  payload_of form = record {
    customer_id = trim form.customer_id;
    delivery_address = trim form.delivery_address;
    branch_id = trim form.branch_id;
    items = map payload_item form.items;
  }

  -- After the mutation ended with the id of an order or with an error; `id` is the toast's.
  after_submit : String → Result (Option FetchBaseQueryError) String → FormPage → FormPage
  after_submit id (ok order_id) page = record {
    form = reduce page.form order_form_reset;
    ui = reduce_ui page.ui (toast_added id success "Order placed successfully.");
    pushed = some ("/orders/" <> order_id);
  }
  after_submit id (err e) page = record page {
    form = reduce page.form (validation_errors_set (rtk_error_messages e));
  }

  -- `handleSubmit`; the payload is that of the form as it was rendered.
  unfoldable pub handle_submit :
      String
      → (CreateOrderPayload N → Result (Option FetchBaseQueryError) String)
      → FormPage
      → FormPage
  unfolding after_submit
  handle_submit id create_order page =
      let cleared = record page { form = reduce page.form (validation_errors_set []) } in
      after_submit id (create_order (payload_of page.form)) cleared

unfoldable pub errors_shown : List String → List (Node Action)
errors_shown [] = []
errors_shown (e ∷ errors) = bullets (e ∷ errors) ∷ []

-- The row of an item, at its index; the only row cannot be removed.
unfoldable pub item_nodes : Bool → ℕ → OrderFormItem → List (Node Action)
item_nodes only i row =
    input "SKU" row.sku (item_updated i sku)
    ∷ input "Qty" row.qty (item_updated i qty)
    ∷ input "Unit price" row.unit_price (item_updated i unit_price)
    ∷ button "Remove item" (not only) (item_removed i)
    ∷ []

unfoldable pub items_nodes : Bool → ℕ → List OrderFormItem → List (Node Action)
unfolding item_nodes
items_nodes only i [] = []
items_nodes only i (row ∷ rows) = item_nodes only i row ++ items_nodes only (suc i) rows

unfoldable pub submit_button : Bool → Node Action
submit_button is_loading =
    submit (if is_loading then "Placing order…" else "Place Order") (not is_loading)

-- The fields, below the errors.
unfoldable pub fields : Bool → OrderFormState → List (Node Action)
unfolding submit_button
fields is_loading state =
    input "Customer ID" state.customer_id customer_id_set
      ∷ input "Delivery Address" state.delivery_address delivery_address_set
      ∷ input "Branch ID" state.branch_id branch_id_set
      ∷ button "Add item" true item_added
      ∷ items_nodes (eqb (length state.items) 1) 0 state.items
    ++ submit_button is_loading ∷ []

unfoldable pub order_form : Bool → OrderFormState → List (Node Action)
unfolding errors_shown
order_form is_loading state = errors_shown state.validation_errors ++ fields is_loading state
