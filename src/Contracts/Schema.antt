-- ===== src/Contracts/Schema.antt =====
-- packages/contracts/src/schemas/order-status-changed.schema.ts and the event's types: the parse of
-- an `order.status_changed` event, and its wire form.
use logistics_order_fulfillm.Prelude.{
  String, Bool, ◌&&◌, Option, none, some, List, [], ◌∷◌, all, ◌>>=◌, ◌>>◌, guard,
}
use logistics_order_fulfillm.Contracts.Status
use logistics_order_fulfillm.Contracts.Status.{OrderStatus}
use logistics_order_fulfillm.Contracts.Json.{
  JsNumber, Json, Items, Fields, null, number, text, array, object, no_items, item, no_fields,
  field, get,
}

pub record EventItem (N : Type 0) : Type 0 where
  pub sku : String
  pub qty : N
  pub unit_price : N

pub record OrderStatusChangedEvent (N : Type 0) : Type 0 where
  pub schema_version : N
  pub trace_id : String
  pub order_id : String
  pub customer_id : String
  pub previous_status : Option OrderStatus
  pub new_status : OrderStatus
  pub timestamp : String
  pub delivery_address : String
  pub order_value : N
  pub items : List (EventItem N)
  -- metadata.branch_id
  pub branch_id : String

module _ {N : Type 0} where
  -- z.string()
  unfoldable pub as_text : Option (Json N) → Option String
  as_text (some (text s)) = some s
  as_text _ = none

  -- OrderStatusEnum
  unfoldable pub as_status : Option (Json N) → Option OrderStatus
  unfolding as_text
  as_status j = do s ← as_text j; Status.of_text s

  -- OrderStatusEnum.nullable()
  unfoldable pub as_status_or_null : Option (Json N) → Option (Option OrderStatus)
  unfolding as_status
  as_status_or_null (some null) = some none
  as_status_or_null j = do s ← as_status j; some (some s)

  unfoldable pub as_fields : Option (Json N) → Option (Fields N)
  as_fields (some (object fs)) = some fs
  as_fields _ = none

  unfoldable pub as_array : Option (Json N) → Option (Items N)
  as_array (some (array js)) = some js
  as_array _ = none

  -- The objects as they are built and sent.
  unfoldable pub item_json : EventItem N → Json N
  item_json e = object (
      field "sku" (text e.sku)
        (field "qty" (number e.qty) (field "unit_price" (number e.unit_price) no_fields)))

  unfoldable pub items_json : List (EventItem N) → Items N
  unfolding item_json
  items_json [] = no_items
  items_json (e ∷ es) = item (item_json e) (items_json es)

  unfoldable pub status_json : Option OrderStatus → Json N
  status_json none = null
  status_json (some s) = text (Status.text s)

  unfoldable pub event_json : OrderStatusChangedEvent N → Json N
  unfolding items_json status_json
  event_json e = object (
      field "schema_version" (number e.schema_version) (
        field "trace_id" (text e.trace_id) (
          field "order_id" (text e.order_id) (
            field "customer_id" (text e.customer_id) (
              field "previous_status" (status_json e.previous_status) (
                field "new_status" (text (Status.text e.new_status)) (
                  field "timestamp" (text e.timestamp) (
                    field "delivery_address" (text e.delivery_address) (
                      field "order_value" (number e.order_value) (
                        field "items" (array (items_json e.items)) (
                          field "metadata" (object (field "branch_id" (text e.branch_id) no_fields))
                            no_fields)))))))))))

module _ {N : Type 0} (js : JsNumber N) where
  -- z.number()
  unfoldable pub as_number : Option (Json N) → Option N
  as_number (some (number n)) = do guard (js.is_number n); some n
  as_number _ = none

  -- z.number().int()
  unfoldable pub as_int : Option (Json N) → Option N
  unfolding as_number
  as_int j = do n ← as_number j; guard (js.is_int n); some n

  -- z.number().int().positive()
  unfoldable pub as_positive_int : Option (Json N) → Option N
  unfolding as_int
  as_positive_int j = do n ← as_int j; guard (js.is_positive n); some n

  -- z.number().nonnegative()
  unfoldable pub as_nonneg : Option (Json N) → Option N
  unfolding as_number
  as_nonneg j = do n ← as_number j; guard (js.is_nonneg n); some n

  -- OrderItemSchema
  unfoldable pub parse_item : Json N → Option (EventItem N)
  unfolding as_text as_positive_int as_nonneg as_fields get
  parse_item j = do
    fs ← as_fields (some j)
    sku ← as_text (get "sku" fs)
    qty ← as_positive_int (get "qty" fs)
    unit_price ← as_nonneg (get "unit_price" fs)
    some (record { sku = sku; qty = qty; unit_price = unit_price })

  unfoldable pub parse_items : Items N → Option (List (EventItem N))
  parse_items no_items = some []
  parse_items (item j rest) = do e ← parse_item j; es ← parse_items rest; some (e ∷ es)

  -- OrderMetadataSchema
  unfoldable pub parse_metadata : Option (Json N) → Option String
  unfolding as_text as_fields get
  parse_metadata j = do fs ← as_fields j; as_text (get "branch_id" fs)

  -- OrderStatusChangedEventSchema.parse; `none` is the thrown ZodError
  unfoldable pub parse_event : Json N → Option (OrderStatusChangedEvent N)
  unfolding as_text as_int as_nonneg as_status as_fields as_array get
  parse_event j = do
    fs ← as_fields (some j)
    schema_version ← as_int (get "schema_version" fs)
    trace_id ← as_text (get "trace_id" fs)
    order_id ← as_text (get "order_id" fs)
    customer_id ← as_text (get "customer_id" fs)
    previous_status ← as_status_or_null (get "previous_status" fs)
    new_status ← as_status (get "new_status" fs)
    timestamp ← as_text (get "timestamp" fs)
    delivery_address ← as_text (get "delivery_address" fs)
    order_value ← as_nonneg (get "order_value" fs)
    item_array ← as_array (get "items" fs)
    items ← parse_items item_array
    branch_id ← parse_metadata (get "metadata" fs)
    some (record {
      schema_version = schema_version;
      trace_id = trace_id;
      order_id = order_id;
      customer_id = customer_id;
      previous_status = previous_status;
      new_status = new_status;
      timestamp = timestamp;
      delivery_address = delivery_address;
      order_value = order_value;
      items = items;
      branch_id = branch_id;
    })

  -- What the schema asks of the numbers.
  unfoldable pub item_ok : EventItem N → Bool
  item_ok e =
      js.is_number e.qty
      && js.is_int e.qty
      && js.is_positive e.qty
      && js.is_number e.unit_price
      && js.is_nonneg e.unit_price

  unfoldable pub event_ok : OrderStatusChangedEvent N → Bool
  unfolding item_ok
  event_ok e =
      js.is_number e.schema_version
      && js.is_int e.schema_version
      && js.is_number e.order_value
      && js.is_nonneg e.order_value
      && all item_ok e.items
