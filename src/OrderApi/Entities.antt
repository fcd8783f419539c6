-- ===== src/OrderApi/Entities.antt =====
-- apps/order-api/src/orders/entities, src/database/entities, the DTOs and src/jobs/job-payloads.ts:
-- the data of the order API.
use logistics_order_fulfillm.Prelude.{ℕ, String, Bool, Option, List}
use logistics_order_fulfillm.Contracts.Status.{OrderStatus}
use logistics_order_fulfillm.Contracts.Json.{JsNumber}
use logistics_order_fulfillm.Contracts.Schema.{OrderStatusChangedEvent}

-- Numbers of JavaScript, and the texts that a numeric(10,2) column with a CHECK of `>= 0` accepts.
pub record Platform (N : Type 0) : Type 0 where
  pub js : JsNumber N
  pub open js use *
  pub fits_numeric : String → Bool

pub record OrderItem : Type 0 where
  pub id : String
  pub order_id : String
  pub sku : String
  pub qty : ℕ
  pub unit_price : String

-- The columns of a row of `orders`.
pub record OrderRow : Type 0 where
  pub id : String
  pub customer_id : String
  pub status : OrderStatus
  pub delivery_address : String
  pub branch_id : String
  pub total_value : String
  pub trace_id : String
  pub created_at : ℕ
  pub updated_at : ℕ

-- The entity, with the items that are loaded beside the row.
pub record Order : Type 0 where
  pub row : OrderRow
  pub open row use *
  pub items : List OrderItem

pub data OutboxChannel : Type 0 where
  kafka rabbitmq : OutboxChannel

pub record ReserveStockItem : Type 0 where
  pub sku : String
  pub qty : ℕ

pub record ReserveStockPayload : Type 0 where
  pub trace_id : String
  pub order_id : String
  pub items : List ReserveStockItem

pub record NotifyPayload : Type 0 where
  pub trace_id : String
  pub order_id : String
  pub customer_id : String
  pub type : String
  pub channel : String

-- The `jsonb` payload, one constructor for each event type.
pub data Payload (N : Type 0) : Type 0 where
  status_changed : OrderStatusChangedEvent N → Payload N
  reserve : ReserveStockPayload → Payload N
  notification : NotifyPayload → Payload N

pub record OutboxEntry (N : Type 0) : Type 0 where
  pub id : ℕ
  pub channel : OutboxChannel
  pub routing_key : String
  pub aggregate_type : String
  pub aggregate_id : String
  pub event_type : String
  pub payload : Payload N
  pub created_at : ℕ
  pub published_at : Option ℕ

pub record CreateOrderItemDto (N : Type 0) : Type 0 where
  pub sku : String
  pub qty : ℕ
  pub unit_price : N

pub record CreateOrderDto (N : Type 0) : Type 0 where
  pub customer_id : String
  pub delivery_address : String
  pub branch_id : String
  pub items : List (CreateOrderItemDto N)

pub record PaymentTimeoutJobData : Type 0 where
  pub trace_id : String
  pub order_id : String

pub record DeliveryReminderJobData : Type 0 where
  pub trace_id : String
  pub order_id : String
  pub customer_id : String

pub record GenerateInvoiceJobData : Type 0 where
  pub trace_id : String
  pub order_id : String

-- A job of a BullMQ queue, with its delay in milliseconds.
pub record Job (A : Type 0) : Type 0 where
  pub body : A
  pub delay : ℕ
