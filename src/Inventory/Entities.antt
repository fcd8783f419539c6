-- ===== src/Inventory/Entities.antt =====
-- apps/inventory-service/src/inventory/entities and the inputs of inventory.service.ts
use logistics_order_fulfillm.Prelude.{ℕ, String, Bool, true, false, List}

pub data ReservationState : Type 0 where
  reserved committed released : ReservationState

pub record Stock : Type 0 where
  pub sku : String
  pub available_qty : ℕ
  pub reserved_qty : ℕ

pub record Reservation : Type 0 where
  pub id : String
  pub order_id : String
  pub sku : String
  pub qty : ℕ
  pub status : ReservationState

pub record Db : Type 0 where
  pub stock : List Stock
  pub reservations : List Reservation

pub record ReserveStockItem : Type 0 where
  pub sku : String
  pub qty : ℕ

pub record ReserveStockInput : Type 0 where
  pub trace_id : String
  pub order_id : String
  pub items : List ReserveStockItem

-- `RetryableError`, and an error of the database (a CHECK that fails, a lost connection).
pub data InventoryError : Type 0 where
  retryable database_error : InventoryError

pub data ReservationSettlement : Type 0 where
  commit release : ReservationSettlement

-- The status that a settlement moves a reservation to.
abbrev pub target_status : ReservationSettlement → ReservationState
target_status commit = committed
target_status release = released

abbrev pub same_state : ReservationState → ReservationState → Bool
same_state reserved reserved = true
same_state committed committed = true
same_state released released = true
same_state _ _ = false

-- The largest value of a column of type `integer`.
abbrev pub int_max : ℕ
int_max = 2147483647
