-- ===== src/Examples/Samples.antt =====
-- The data of the examples: a platform whose numbers are naturals, requests and databases.
use logistics_order_fulfillm.Prelude.{
  some, ℕ, ◌+◌, ◌*◌, String, true, false, List, [], ◌∷◌, leb, decimal,
}
use logistics_order_fulfillm.Contracts.Status.{placed, payment_confirmed, cancelled, picking}
use logistics_order_fulfillm.Contracts.Json.{JsNumber}
use logistics_order_fulfillm.Contracts.Schema.{OrderStatusChangedEvent}
use logistics_order_fulfillm.OrderApi.Entities.{Platform, CreateOrderDto, OrderRow}
use logistics_order_fulfillm.OrderApi.Store.{Ambient, State}
use logistics_order_fulfillm.OrderApi.System.{Request, place, move}
use logistics_order_fulfillm.Inventory.Entities
use logistics_order_fulfillm.Inventory.Ledger.{Call, reserve, settle}

abbrev pub naturals : JsNumber ℕ
naturals = record {
  zero = 0;
  add = λ a b. a + b;
  mul = λ a b. a * b;
  of_nat = λ n. n;
  to_fixed = λ n. decimal n;
  parse = λ s. 7;
  is_number = λ n. true;
  is_int = λ n. true;
  is_positive = λ n. leb 1 n;
  is_nonneg = λ n. true;
}

abbrev pub platform : Platform ℕ
platform = record { js = naturals; fits_numeric = λ s. true }

abbrev pub now : Ambient
now = record {
  now = 100;
  now_text = "2026-01-01T00:00:00.000Z";
  order_uuid = "order-1";
  trace_uuid = "trace-1";
  item_uuid = λ i. "item";
  database_fails = false;
  redis_fails = false;
}

abbrev pub without_redis : Ambient
without_redis = record now { redis_fails = true }

abbrev pub dto : CreateOrderDto ℕ
dto = record {
  customer_id = "customer-1";
  delivery_address = "1 Main Street";
  branch_id = "branch_01";
  items = record { sku = "A"; qty = 2; unit_price = 5 } ∷ [];
}

abbrev pub no_orders : State ℕ
no_orders = record {
  db = record {
    customers = "customer-1" ∷ [];
    orders = [];
    order_items = [];
    outbox = [];
    next_outbox_id = 1;
  };
  payment_timeout_queue = [];
  delivery_reminder_queue = [];
  generate_invoice_queue = [];
}

abbrev pub requests : List (Request ℕ × Ambient)
requests =
    (place dto, now)
    ∷ (move "order-1" payment_confirmed, now)
    ∷ (move "order-1" cancelled, now)
    ∷ (move "order-1" picking, now)
    ∷ []

abbrev pub placed_row : OrderRow
placed_row = record {
  id = "order-1";
  customer_id = "customer-1";
  status = placed;
  delivery_address = "1 Main Street";
  branch_id = "branch_01";
  total_value = "10";
  trace_id = "trace-1";
  created_at = 100;
  updated_at = 100;
}

abbrev pub one_order : State ℕ
one_order = record no_orders { db = record no_orders.db { orders = placed_row ∷ [] } }

abbrev pub paid_order : State ℕ
paid_order = record no_orders {
  db = record no_orders.db { orders = record placed_row { status = payment_confirmed } ∷ [] };
}

abbrev pub shelf : Entities.Db
shelf = record {
  stock =
      record { sku = "A"; available_qty = 5; reserved_qty = 0 }
      ∷ record { sku = "B"; available_qty = 1; reserved_qty = 0 }
      ∷ [];
  reservations = [];
}

abbrev pub uuid : ℕ → String
uuid n = "row"

abbrev pub two_lines : Entities.ReserveStockInput
two_lines = record {
  trace_id = "trace-1";
  order_id = "order-1";
  items = record { sku = "A"; qty = 3 } ∷ record { sku = "B"; qty = 1 } ∷ [];
}

-- the same sku twice: 3 and 3 of 5
abbrev pub twice_a : Entities.ReserveStockInput
twice_a = record {
  trace_id = "trace-2";
  order_id = "order-2";
  items = record { sku = "A"; qty = 3 } ∷ record { sku = "A"; qty = 3 } ∷ [];
}

abbrev pub calls : List Call
calls =
    reserve two_lines uuid false
    ∷ reserve twice_a uuid false
    ∷ settle "order-1" Entities.release false
    ∷ []

abbrev pub reserved_shelf : Entities.Db
reserved_shelf = record {
  stock =
      record { sku = "A"; available_qty = 2; reserved_qty = 3 }
      ∷ record { sku = "B"; available_qty = 0; reserved_qty = 1 }
      ∷ [];
  reservations =
      record { id = "row"; order_id = "order-1"; sku = "A"; qty = 3; status = Entities.reserved }
      ∷ record { id = "row"; order_id = "order-1"; sku = "B"; qty = 1; status = Entities.reserved }
      ∷ [];
}

abbrev pub released_shelf : Entities.Db
released_shelf = record {
  stock =
      record { sku = "A"; available_qty = 5; reserved_qty = 0 }
      ∷ record { sku = "B"; available_qty = 1; reserved_qty = 0 }
      ∷ [];
  reservations =
      record { id = "row"; order_id = "order-1"; sku = "A"; qty = 3; status = Entities.released }
      ∷ record { id = "row"; order_id = "order-1"; sku = "B"; qty = 1; status = Entities.released }
      ∷ [];
}

abbrev pub cancellation : OrderStatusChangedEvent ℕ
cancellation = record {
  schema_version = 1;
  trace_id = "trace-1";
  order_id = "order-1";
  customer_id = "customer-1";
  previous_status = some placed;
  new_status = cancelled;
  timestamp = "2026-01-01T00:00:00.000Z";
  delivery_address = "1 Main Street";
  order_value = 10;
  items = record { sku = "A"; qty = 2; unit_price = 5 } ∷ [];
  branch_id = "branch_01";
}
