-- ===== src/Inventory/Service.antt =====
-- apps/inventory-service/src/inventory/inventory.service.ts. Quantities are natural numbers: the
-- order API sends positive integers. A write that would leave the range of its column, 0 to
-- `int_max`, is refused by the table and rolls the transaction back (`none`).
use logistics_order_fulfillm.Prelude.{
  ℕ, ◌+◌, ◌-◌, String, Bool, ◌&&◌, Option, none, some, List, [], ◌∷◌, ◌++◌, ◌==◌, leb, ltb, Result,
  ok, err, if◌then◌else◌, ◌>>=◌, length, keep,
}
use logistics_order_fulfillm.Prelude.Table
use logistics_order_fulfillm.Contracts.Delivery.{
  UnavailableItem, ReservationStatus, reserved, insufficient_stock, StockReservationResult,
}
use logistics_order_fulfillm.Inventory.Entities
use logistics_order_fulfillm.Inventory.Entities.{
  ReservationState, Stock, Reservation, Db, ReserveStockItem, ReserveStockInput, InventoryError,
  retryable, database_error, ReservationSettlement, commit, release, target_status, same_state,
  int_max,
}

-- `manager.find(Reservation, { where: { orderId } })`
unfoldable pub of_order : String → List Reservation → List Reservation
of_order order_id rows = keep (λ r. r.order_id == order_id) rows

-- `stock?.availableQty ?? 0`
unfoldable pub available_or_zero : Option Stock → ℕ
available_or_zero none = 0
available_or_zero (some s) = s.available_qty

-- The lines that the stock cannot serve, each looked at by itself. The lookup is in the rows that
-- were locked, one for each sku of the input that has one.
unfoldable pub unavailable : List Stock → List ReserveStockItem → List UnavailableItem
unfolding available_or_zero
unavailable stock [] = []
unavailable stock (item ∷ items) =
    let available = available_or_zero (Table.find (λ s. s.sku) item.sku stock) in
    let rest = unavailable stock items in
    if ltb available item.qty
    then record { sku = item.sku; requested_qty = item.qty; available_qty = available } ∷ rest
    else rest

-- One line is taken: the stock row is saved and the reservation inserted, whose CHECK wants a
-- positive quantity.
take_from : String → (ℕ → String) → ReserveStockItem → Db → Option Stock → Option Db
take_from order_id uuid item db none = none
take_from order_id uuid item db (some s) =
    if leb 1 item.qty && leb item.qty s.available_qty && leb (s.reserved_qty + item.qty) int_max
    then some (record {
      stock =
          Table.save (λ s. s.sku)
            (record s {
              available_qty = s.available_qty - item.qty;
              reserved_qty = s.reserved_qty + item.qty;
            })
            db.stock;
      reservations =
          db.reservations
          ++ record {
            id = uuid (length db.reservations);
            order_id = order_id;
            sku = item.sku;
            qty = item.qty;
            status = Entities.reserved;
          }
            ∷ [];
    })
    else none

unfoldable pub take_item : String → (ℕ → String) → ReserveStockItem → Db → Option Db
unfolding take_from
take_item order_id uuid item db =
    take_from order_id uuid item db (Table.find (λ s. s.sku) item.sku db.stock)

unfoldable pub take_items : String → (ℕ → String) → List ReserveStockItem → Db → Option Db
take_items order_id uuid [] db = some db
take_items order_id uuid (item ∷ items) db = do
  db' ← take_item order_id uuid item db
  take_items order_id uuid items db'

abbrev pub result_of : ReserveStockInput → ReservationStatus → StockReservationResult
result_of input status = record {
  trace_id = input.trace_id;
  order_id = input.order_id;
  status = status;
}

abbrev pub Outcome : Type 0 → Type 0
Outcome A = Result InventoryError A × Db

taken : ReserveStockInput → Db → Option Db → Outcome StockReservationResult
taken input db none = (err database_error, db)
taken input db (some db') = (ok (result_of input reserved), db')

serve_lines :
    ReserveStockInput → (ℕ → String) → Db → List UnavailableItem → Outcome StockReservationResult
unfolding taken
serve_lines input uuid db [] = taken input db (take_items input.order_id uuid input.items db)
serve_lines input uuid db (u ∷ us) = (ok (result_of input (insufficient_stock (u ∷ us))), db)

reserve_unless :
    List Reservation → ReserveStockInput → (ℕ → String) → Db → Outcome StockReservationResult
unfolding serve_lines
reserve_unless [] input uuid db = serve_lines input uuid db (unavailable db.stock input.items)
reserve_unless (r ∷ existing) input uuid db = (ok (result_of input reserved), db)

-- `fails` is a database that fails at some statement of the transaction.
unfoldable pub reserve_stock :
    ReserveStockInput → (ℕ → String) → Bool → Db → Outcome StockReservationResult
unfolding reserve_unless
reserve_stock input uuid fails db =
    if fails
    then (err database_error, db)
    else reserve_unless (of_order input.order_id db.reservations) input uuid db

-- `stock.reservedQty -= qty`, and for a release `stock.availableQty += qty`; then the saves.
settle_stock :
    ReservationSettlement
    → Reservation
    → List Stock
    → Option Stock
    → Option (Reservation × List Stock)
settle_stock target r stock none = some (r, stock)
settle_stock commit r stock (some s) =
    if leb r.qty s.reserved_qty
    then some (
      record r { status = Entities.committed },
      Table.save (λ s. s.sku) (record s { reserved_qty = s.reserved_qty - r.qty }) stock,
    )
    else none
settle_stock release r stock (some s) =
    if leb r.qty s.reserved_qty && leb (s.available_qty + r.qty) int_max
    then some (
      record r { status = Entities.released },
      Table.save (λ s. s.sku)
          (record s {
            reserved_qty = s.reserved_qty - r.qty;
            available_qty = s.available_qty + r.qty;
          })
          stock,
    )
    else none

-- One round of the loop: a row in the target state or settled otherwise is skipped, and so is one
-- whose stock row is missing.
unfoldable pub settle_row :
    ReservationSettlement → Reservation → List Stock → Option (Reservation × List Stock)
unfolding settle_stock
settle_row target r stock =
    if same_state r.status (target_status target)
    then some (r, stock)
    else if same_state r.status Entities.reserved
    then settle_stock target r stock (Table.find (λ s. s.sku) r.sku stock)
    else some (r, stock)

-- A row of another order is passed over.
unfoldable pub settle_step :
    String → ReservationSettlement → Reservation → List Stock → Option (Reservation × List Stock)
settle_step order_id target r stock =
    if r.order_id == order_id then settle_row target r stock else some (r, stock)

-- The loop over the order's reservations, each saved in its place.
unfoldable pub settle_rows :
    String
    → ReservationSettlement
    → List Reservation
    → List Stock
    → Option (List Reservation × List Stock)
settle_rows order_id target [] stock = some ([], stock)
settle_rows order_id target (r ∷ rows) stock = settle_step order_id target r stock >>= λ p.
    settle_rows order_id target rows p.1 >>= λ q. some (p.0 ∷ q.0, q.1)

settled : Db → Option (List Reservation × List Stock) → Outcome (Unit {0})
settled db none = (err database_error, db)
settled db (some (rows, stock)) = (ok tt, record { stock = stock; reservations = rows })

settle_unless_none : List Reservation → String → ReservationSettlement → Db → Outcome (Unit {0})
unfolding settled
settle_unless_none [] order_id target db = (err retryable, db)
settle_unless_none (r ∷ rows) order_id target db =
    settled db (settle_rows order_id target db.reservations db.stock)

unfoldable pub settle_reservation : String → ReservationSettlement → Bool → Db → Outcome (Unit {0})
unfolding settle_unless_none
settle_reservation order_id target fails db =
    if fails
    then (err database_error, db)
    else settle_unless_none (of_order order_id db.reservations) order_id target db
