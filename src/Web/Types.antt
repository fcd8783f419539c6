-- ===== src/Web/Types.antt =====
-- apps/web/lib/types.ts: the JSON of the backend services. `N` is the type of JavaScript's numbers
-- where they need not be whole.
use logistics_order_fulfillm.Prelude.{ℕ, String, List}
use logistics_order_fulfillm.Contracts.Status.{OrderStatus}

pub record OrderItem : Type 0 where
  pub id : String
  pub order_id : String
  pub sku : String
  pub qty : ℕ
  pub unit_price : String

pub record Order : Type 0 where
  pub id : String
  pub customer_id : String
  pub status : OrderStatus
  pub delivery_address : String
  pub branch_id : String
  pub total_value : String
  pub trace_id : String
  pub created_at : String
  pub updated_at : String
  pub items : List OrderItem

pub record PaginatedOrders : Type 0 where
  -- the field `data` of the source
  pub page_data : List Order
  pub total : ℕ
  pub page : ℕ
  pub limit : ℕ
  pub total_pages : ℕ

pub record AnalyticsSummary : Type 0 where
  pub total_orders_placed : ℕ
  pub total_order_value : String
  pub counts_by_status : List (OrderStatus × ℕ)

pub record OrdersPerHourPoint : Type 0 where
  pub hour : String
  pub count : ℕ

pub record TimeInStatusPoint (N : Type 0) : Type 0 where
  pub status : OrderStatus
  pub avg_seconds : N
  pub sample_size : ℕ

pub data FraudSeverity : Type 0 where
  low medium high : FraudSeverity

pub record FraudFlag : Type 0 where
  pub id : ℕ
  pub order_id : String
  pub rule_name : String
  pub reason : String
  pub severity : FraudSeverity
  pub created_at : String
