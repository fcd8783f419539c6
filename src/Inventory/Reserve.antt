-- ===== src/Inventory/Reserve.antt =====
-- What `reserveStock` promises (apps/inventory-service/src/inventory/inventory.service.ts).
use logistics_order_fulfillm.Prelude.{
  ℕ, ◌+◌, ◌≤◌, ◌<◌, String, ◌≡◌, refl, false, some, List, [], ◌∷◌, ◌++◌, ◌==◌, ok, err, inl, inr,
  arith, keep, keep-append, length, length-append, eq_refl, Option-cases, List-cases, nil_of_length,
  ◌-◌, All,
}
use logistics_order_fulfillm.Prelude.Table
use logistics_order_fulfillm.Contracts.Delivery.{reserved}
use logistics_order_fulfillm.Inventory.Entities
use logistics_order_fulfillm.Inventory.Entities.{
  Stock, Reservation, Db, ReserveStockItem, ReserveStockInput, database_error, int_max,
}
use logistics_order_fulfillm.Inventory.Service.{
  unavailable, of_order, take_item, take_items, result_of, reserve_stock,
}
use logistics_order_fulfillm.Inventory.Conservation.{
  available, reserved_qty, line_self, demanded, Took, take_item-Took, take_items-Took,
}

module _ (input : ReserveStockInput) (uuid : ℕ → String) (db : Db) where
  -- If an order without reservations is answered RESERVED, then of each sku what its lines ask for
  -- together has moved from available to reserved, in the stock and in the reservations, and what
  -- is committed is as it was.
  pub reserve_stock-reserved :
      (fresh : of_order input.order_id db.reservations ≡ []) (db' : Db)
      → reserve_stock input uuid false db ≡ (ok (result_of input reserved), db')
      → Took (λ sku. demanded sku input.items) db db'
  unfolding reserve_stock
  reserve_stock-reserved fresh db' h =
      take_items-Took input.order_id uuid input.items db db' (ground arith)

  -- With a database that answers, an order without reservations whose lines fit one by one, but
  -- together ask for more of a sku than is available, ends in a database error and changes
  -- nothing.
  pub reserve_stock-overdrawn :
      (sku : String)
      → of_order input.order_id db.reservations ≡ []
      → unavailable db.stock input.items ≡ []
      → available sku db.stock < demanded sku input.items
      → reserve_stock input uuid false db ≡ (err database_error, db)
  unfolding reserve_stock
  reserve_stock-overdrawn sku fresh fits over =
      elim (Option-cases (take_items input.order_id uuid input.items db)) [
        | inl failed ↦ rw (fresh, fits, failed)
        | inr (db', taken) ↦ absurd (
            omega (
              arith,
              (take_items-Took input.order_id uuid input.items db db' taken).from_available sku,
            ))
      ]

  count-take_item :
      (item : ReserveStockItem) (db1 db2 : Db)
      → take_item input.order_id uuid item db1 ≡ some db2
      → length (of_order input.order_id db2.reservations)
        ≡ length (of_order input.order_id db1.reservations) + 1
  unfolding take_item of_order
  count-take_item item db1 db2 h =
      elim (Option-cases (Table.find (λ s. s.sku) item.sku db1.stock)) [
        | inl missing ↦ ground arith
        | inr (s, found) ↦
            let row : Reservation = record {
              id = uuid (length db1.reservations);
              order_id = input.order_id;
              sku = item.sku;
              qty = item.qty;
              status = Entities.reserved;
            } in
            let mine = λ (r : Reservation). r.order_id == input.order_id in
            ground (
              arith,
              eq_refl input.order_id,
              keep-append mine db1.reservations (row ∷ []),
              length-append (keep mine db1.reservations) (keep mine (row ∷ [])),
            )
      ]

  count-take_items :
      (items : List ReserveStockItem) (db1 db2 : Db)
      → take_items input.order_id uuid items db1 ≡ some db2
      → length (of_order input.order_id db2.reservations)
        ≡ length (of_order input.order_id db1.reservations) + length items
  unfolding take_items
  count-take_items [] db1 db2 h = ground arith
  count-take_items (item ∷ items) db1 db2 h =
      elim (Option-cases (take_item input.order_id uuid item db1)) [
        | inl failed ↦ ground arith
        | inr (db', taken) ↦
            ground (arith, count-take_item item db1 db' taken, count-take_items items db' db2)
      ]

take_items-nil :
    (order_id : String) (uuid : ℕ → String) (items : List ReserveStockItem) (db : Db)
    → items ≡ []
    → (take_items order_id uuid items db ≡ some db) × (unavailable db.stock items ≡ [])
unfolding take_items unavailable
take_items-nil order_id uuid items db e = (rw e, rw e)

-- With a database that answers, once an order was answered RESERVED, a second delivery of its
-- message is answered RESERVED and changes nothing.
pub reserve_stock-again :
    (input : ReserveStockInput) (uuid uuid' : ℕ → String) (db db' : Db)
    → reserve_stock input uuid false db ≡ (ok (result_of input reserved), db')
    → reserve_stock input uuid' false db' ≡ (ok (result_of input reserved), db')
unfolding reserve_stock
reserve_stock-again input uuid uuid' db db' h =
    elim (List-cases (of_order input.order_id db.reservations)) [
      | inr (r, old, replayed) ↦ let same : db ≡ db' = ground arith in rw (← same, replayed)
      | inl fresh ↦
          let taken : take_items input.order_id uuid input.items db ≡ some db' = ground arith in
          elim (List-cases (of_order input.order_id db'.reservations)) [
            | inr (r, old, replayed) ↦ rw replayed
            | inl none_left ↦
                let empty : input.items ≡ [] =
                  nil_of_length input.items
                    (ground (arith, count-take_items input uuid db input.items db db' taken)) in
                let (t, u) = take_items-nil input.order_id uuid' input.items db' empty in
                rw (none_left, u, t)
          ]
    ]

-- what the CHECKs and the columns' ranges ask of the lines
abbrev pub IsPositive : List ReserveStockItem → Type 0
IsPositive = All (λ item. 1 ≤ item.qty)

module _ (order_id : String) (uuid : ℕ → String) where
  take_item-total :
      (item : ReserveStockItem) (db : Db)
      → 1 ≤ item.qty
      → item.qty ≤ available item.sku db.stock
      → reserved_qty item.sku db.stock + item.qty ≤ int_max
      → (db' : Db) × (take_item order_id uuid item db ≡ some db')
  unfolding take_item
  take_item-total item db pos fits room =
      elim (Option-cases (Table.find (λ s. s.sku) item.sku db.stock)) [
        | inl missing ↦ absurd (ground arith)
        | inr (s, found) ↦ (
          record {
            stock =
                Table.save (λ s. s.sku)
                  (record s {
                    available_qty = s.available_qty - item.qty;
                    reserved_qty = s.reserved_qty + item.qty;
                  })
                  db.stock;
            reservations =
                db.reservations
                ++ record {
                  id = uuid (length db.reservations);
                  order_id = order_id;
                  sku = item.sku;
                  qty = item.qty;
                  status = Entities.reserved;
                }
                  ∷ [];
          },
          ground arith,
        )
      ]

  take_items-total :
      (items : List ReserveStockItem) (db : Db)
      → IsPositive items
      → ((sku : String) → demanded sku items ≤ available sku db.stock)
      → ((sku : String) → reserved_qty sku db.stock + demanded sku items ≤ int_max)
      → (db' : Db) × (take_items order_id uuid items db ≡ some db')
  unfolding take_items
  take_items-total [] db pos fits room = (db, refl)
  take_items-total (item ∷ items) db pos fits room =
      let (db1, taken) =
        take_item-total item db pos.0 (omega (arith, line_self item, fits item.sku))
          (omega (arith, line_self item, room item.sku)) in
      let first = take_item-Took order_id uuid item db db1 taken in
      let (db2, rest) =
        take_items-total items db1 pos.1 (λ sku. omega (arith, fits sku, first.from_available sku))
          (λ sku. omega (arith, room sku, first.to_reserved sku)) in
      (db2, rw (taken, rest))

unavailable_nil :
    (stock : List Stock) (items : List ReserveStockItem)
    → ((sku : String) → demanded sku items ≤ available sku stock)
    → unavailable stock items ≡ []
unfolding unavailable
unavailable_nil stock [] fits = refl
unavailable_nil stock (item ∷ items) fits = ground (
  arith,
  line_self item,
  fits item.sku,
  unavailable_nil stock items (λ sku. omega (arith, fits sku)),
)

-- With a database that answers, an order without reservations whose quantities are positive and
-- whose lines together fit the available stock and the reserved column is answered RESERVED.
pub reserve_stock-total :
    (input : ReserveStockInput) (uuid : ℕ → String) (db : Db)
    → of_order input.order_id db.reservations ≡ []
    → IsPositive input.items
    → ((sku : String) → demanded sku input.items ≤ available sku db.stock)
    → ((sku : String) → reserved_qty sku db.stock + demanded sku input.items ≤ int_max)
    → (reserve_stock input uuid false db).0 ≡ ok (result_of input reserved)
unfolding reserve_stock
reserve_stock-total input uuid db fresh pos fits room =
    let (db', taken) = take_items-total input.order_id uuid input.items db pos fits room in
    rw (fresh, unavailable_nil db.stock input.items fits, taken)
