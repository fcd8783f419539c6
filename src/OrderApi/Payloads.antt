-- ===== src/OrderApi/Payloads.antt =====
-- apps/order-api/src/orders/outbox-payloads.ts
use logistics_order_fulfillm.Prelude.{String, Option, none, some, map}
use logistics_order_fulfillm.Contracts.Status.{
  OrderStatus, placed, payment_confirmed, shipped, delivered, cancelled,
}
use logistics_order_fulfillm.Contracts.Schema.{
  EventItem, OrderStatusChangedEvent, event_json, parse_event,
}
use logistics_order_fulfillm.OrderApi.Entities.{
  Platform, OrderItem, Order, ReserveStockItem, ReserveStockPayload, NotifyPayload,
}

module _ {N : Type 0} (pf : Platform N) where
  unfoldable pub event_item : OrderItem → EventItem N
  event_item item = record {
    sku = item.sku;
    qty = pf.of_nat item.qty;
    unit_price = pf.parse item.unit_price;
  }

  -- The object literal of `buildStatusChangedPayload`; `timestamp` is the text of the present time.
  unfoldable pub status_changed_event :
      String → Order → Option OrderStatus → OrderStatus → OrderStatusChangedEvent N
  unfolding event_item
  status_changed_event timestamp order previous_status new_status = record {
    schema_version = pf.of_nat 1;
    trace_id = order.trace_id;
    order_id = order.id;
    customer_id = order.customer_id;
    previous_status = previous_status;
    new_status = new_status;
    timestamp = timestamp;
    delivery_address = order.delivery_address;
    order_value = pf.parse order.total_value;
    items = map event_item order.items;
    branch_id = order.branch_id;
  }

  -- The payload is parsed by the contract's schema when it is written.
  unfoldable pub build_status_changed_payload :
      String → Order → Option OrderStatus → OrderStatus → Option (OrderStatusChangedEvent N)
  build_status_changed_payload timestamp order previous_status new_status =
      parse_event pf.js
        (event_json (status_changed_event timestamp order previous_status new_status))

reserve_item : OrderItem → ReserveStockItem
reserve_item item = record { sku = item.sku; qty = item.qty }

unfoldable pub build_reserve_stock_payload : Order → ReserveStockPayload
unfolding reserve_item
build_reserve_stock_payload order = record {
  trace_id = order.trace_id;
  order_id = order.id;
  items = map reserve_item order.items;
}

-- NOTIFY_TYPE_BY_STATUS
unfoldable pub notify_type_by_status : OrderStatus → Option String
notify_type_by_status placed = some "ORDER_PLACED"
notify_type_by_status payment_confirmed = some "PAYMENT_CONFIRMED"
notify_type_by_status shipped = some "SHIPPED"
notify_type_by_status delivered = some "DELIVERED"
notify_type_by_status cancelled = some "CANCELLED"
notify_type_by_status _ = none

notify_payload : Order → Option String → Option NotifyPayload
notify_payload order none = none
notify_payload order (some type) = some (record {
  trace_id = order.trace_id;
  order_id = order.id;
  customer_id = order.customer_id;
  type = type;
  channel = "EMAIL";
})

unfoldable pub build_notify_payload : Order → OrderStatus → Option NotifyPayload
unfolding notify_type_by_status notify_payload
build_notify_payload order new_status = notify_payload order (notify_type_by_status new_status)
