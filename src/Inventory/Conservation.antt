-- ===== src/Inventory/Conservation.antt =====
-- Goods are neither lost nor made: the quantities of one sku across reservations and settlements
-- (apps/inventory-service/src/inventory/inventory.service.ts).
use logistics_order_fulfillm.Prelude.{
  ℕ, ◌+◌, ◌-◌, String, ◌≡◌, ◌&&◌, Option, none, some, List, [], ◌∷◌, ◌++◌, ◌==◌, if◌then◌else◌,
  arith, eq_iff, eq_refl, Option-cases, inl, inr, length,
}
use logistics_order_fulfillm.Prelude.Table
use logistics_order_fulfillm.Inventory.Entities.{
  ReservationState, reserved, committed, Stock, Reservation, Db, ReserveStockItem, same_state,
}
use logistics_order_fulfillm.Inventory.Service.{take_item, take_items}

abbrev pub available_in : Option Stock → ℕ
available_in none = 0
available_in (some s) = s.available_qty

abbrev pub reserved_in : Option Stock → ℕ
reserved_in none = 0
reserved_in (some s) = s.reserved_qty

-- The columns of the stock row of a sku; 0 where there is none.
abbrev pub available : String → List Stock → ℕ
available sku stock = available_in (Table.find (λ s. s.sku) sku stock)

abbrev pub reserved_qty : String → List Stock → ℕ
reserved_qty sku stock = reserved_in (Table.find (λ s. s.sku) sku stock)

-- The quantity of a sku in the reservations of one state.
abbrev pub amount : ReservationState → String → List Reservation → ℕ
amount state sku [] = 0
amount state sku (r ∷ rows) =
    if (r.sku == sku) && same_state r.status state
    then r.qty + amount state sku rows
    else amount state sku rows

-- What was there or sold: available, reserved, and committed to orders.
abbrev pub owned : String → Db → ℕ
owned sku db =
    available sku db.stock + reserved_qty sku db.stock + amount committed sku db.reservations

amount-append :
    (state : ReservationState) (sku : String) (xs ys : List Reservation)
    → amount state sku (xs ++ ys) ≡ amount state sku xs + amount state sku ys
amount-append state sku [] ys = omega arith
amount-append state sku (r ∷ xs) ys = ground (arith, amount-append state sku xs ys)

-- what a line asks of a sku
abbrev pub line : String → ReserveStockItem → ℕ
line sku item = if item.sku == sku then item.qty else 0

pub line_self : (item : ReserveStockItem) → line item.sku item ≡ item.qty
line_self item = ground (arith, eq_refl item.sku)

-- What an input asks of a sku, over all its lines.
abbrev pub demanded : String → List ReserveStockItem → ℕ
demanded sku [] = 0
demanded sku (item ∷ items) = line sku item + demanded sku items

-- From one database to another `n sku` of each sku went from available to reserved, and nothing else
-- was touched.
pub record Took (n : String → ℕ) (db db' : Db) : Type 0 where
  pub from_available : (sku : String) → available sku db'.stock + n sku ≡ available sku db.stock
  pub to_reserved : (sku : String) → reserved_qty sku db'.stock ≡ reserved_qty sku db.stock + n sku
  pub to_held :
      (sku : String)
      → amount reserved sku db'.reservations ≡ amount reserved sku db.reservations + n sku
  pub sold_kept :
      (sku : String) → amount committed sku db'.reservations ≡ amount committed sku db.reservations

module _ (order_id : String) (uuid : ℕ → String) where
  pub take_item-Took :
      (item : ReserveStockItem) (db db' : Db)
      → take_item order_id uuid item db ≡ some db'
      → Took (λ sku. line sku item) db db'
  unfolding take_item
  take_item-Took item db db' h = elim (Option-cases (Table.find (λ s. s.sku) item.sku db.stock)) [
    | inl missing ↦ ground arith
    | inr (s, found) ↦
        let s' = record s {
          available_qty = s.available_qty - item.qty;
          reserved_qty = s.reserved_qty + item.qty;
        } in
        let row : Reservation = record {
          id = uuid (length db.reservations);
          order_id = order_id;
          sku = item.sku;
          qty = item.qty;
          status = reserved;
        } in
        let same = Table.key-find (λ (s : Stock). s.sku) item.sku s db.stock found in
        record {
          from_available = λ sku. ground (
            arith,
            Table.find-save (λ (s : Stock). s.sku) s' sku db.stock,
            eq_iff item.sku sku,
            eq_iff s.sku sku,
          );
          to_reserved = λ sku. ground (
            arith,
            Table.find-save (λ (s : Stock). s.sku) s' sku db.stock,
            eq_iff item.sku sku,
            eq_iff s.sku sku,
          );
          to_held = λ sku. ground (arith, amount-append reserved sku db.reservations (row ∷ []));
          sold_kept = λ sku. ground (arith, amount-append committed sku db.reservations (row ∷ []));
        }
  ]

  pub take_items-Took :
      (items : List ReserveStockItem) (db db' : Db)
      → take_items order_id uuid items db ≡ some db'
      → Took (λ sku. demanded sku items) db db'
  unfolding take_items
  take_items-Took [] db db' h = record {
    from_available = λ sku. ground arith;
    to_reserved = λ sku. ground arith;
    to_held = λ sku. ground arith;
    sold_kept = λ sku. ground arith;
  }
  take_items-Took (item ∷ items) db db' h = elim (Option-cases (take_item order_id uuid item db)) [
    | inl failed ↦ ground arith
    | inr (db1, taken) ↦
        let first = take_item-Took item db db1 taken in
        let rest = take_items-Took items db1 db' (ground arith) in
        record {
          from_available = λ sku. omega (arith, first.from_available sku, rest.from_available sku);
          to_reserved = λ sku. omega (arith, first.to_reserved sku, rest.to_reserved sku);
          to_held = λ sku. omega (arith, first.to_held sku, rest.to_held sku);
          sold_kept = λ sku. omega (arith, first.sold_kept sku, rest.sold_kept sku);
        }
  ]
