-- ===== src/Inventory/Settled.antt =====
-- When a settlement succeeds, and what it leaves
-- (`settleReservation` of apps/inventory-service/src/inventory/inventory.service.ts).
use logistics_order_fulfillm.Prelude.{
  ◌+◌, ◌-◌, String, ◌≡◌, refl, Bool, true, false, not, ◌&&◌, Option, none, some, List, [], ◌∷◌, ok,
  arith, ◌==◌, all, Option-cases, List-cases, inl, inr,
}
use logistics_order_fulfillm.Prelude.Table
use logistics_order_fulfillm.Inventory.Entities.{
  reserved, Stock, Reservation, Db, ReservationSettlement, commit, release, same_state,
}
use logistics_order_fulfillm.Inventory.Service.{
  of_order, settle_row, settle_step, settle_rows, settle_reservation,
}

-- the sku has a row of stock
abbrev is_there : Option Stock → Bool
is_there none = false
is_there (some s) = true

abbrev pub in_stock : String → List Stock → Bool
in_stock sku stock = is_there (Table.find (λ s. s.sku) sku stock)

-- The foreign key of `reservations`: each one's sku is in the stock.
abbrev pub HasStock : Db → Type 0
HasStock db = all (λ r. in_stock r.sku db.stock) db.reservations ≡ true

-- a reservation of the order is still open
abbrev pub is_closed : String → Reservation → Bool
is_closed order_id r = not ((r.order_id == order_id) && same_state r.status reserved)

in_stock-settle_row :
    (target : ReservationSettlement) (r r' : Reservation) (stock stock' : List Stock) (sku : String)
    → settle_row target r stock ≡ some (r', stock')
    → in_stock sku stock ≡ true
    → in_stock sku stock' ≡ true
unfolding settle_row
in_stock-settle_row commit r r' stock stock' sku h i =
    elim (Option-cases (Table.find (λ s. s.sku) r.sku stock)) [
      | inl missing ↦ ground arith
      | inr (s, found) ↦
          let s' = record s { reserved_qty = s.reserved_qty - r.qty } in
          ground (arith, Table.find-save (λ (s : Stock). s.sku) s' sku stock)
    ]
in_stock-settle_row release r r' stock stock' sku h i =
    elim (Option-cases (Table.find (λ s. s.sku) r.sku stock)) [
      | inl missing ↦ ground arith
      | inr (s, found) ↦
          let s' = record s {
            reserved_qty = s.reserved_qty - r.qty;
            available_qty = s.available_qty + r.qty;
          } in
          ground (arith, Table.find-save (λ (s : Stock). s.sku) s' sku stock)
    ]

pub in_stock-settle_step :
    (order_id : String) (target : ReservationSettlement) (r r' : Reservation)
    (stock stock' : List Stock) (sku : String)
    → settle_step order_id target r stock ≡ some (r', stock')
    → in_stock sku stock ≡ true
    → in_stock sku stock' ≡ true
unfolding settle_step
in_stock-settle_step order_id target r r' stock stock' sku h i =
    ground (arith, in_stock-settle_row target r r' stock stock' sku)

pub all-in_stock :
    (order_id : String) (target : ReservationSettlement) (r r' : Reservation)
    (stock stock' : List Stock) (rows : List Reservation)
    → settle_step order_id target r stock ≡ some (r', stock')
    → all (λ r. in_stock r.sku stock) rows ≡ true
    → all (λ r. in_stock r.sku stock') rows ≡ true
all-in_stock order_id target r r' stock stock' [] h i = refl
all-in_stock order_id target r r' stock stock' (q ∷ rows) h i = ground (
  arith,
  in_stock-settle_step order_id target r r' stock stock' q.sku h,
  all-in_stock order_id target r r' stock stock' rows h,
)

pub settle_step-closed :
    (order_id : String) (target : ReservationSettlement) (r r' : Reservation)
    (stock stock' : List Stock)
    → settle_step order_id target r stock ≡ some (r', stock')
    → in_stock r.sku stock ≡ true
    → is_closed order_id r' ≡ true
unfolding settle_step settle_row
settle_step-closed order_id commit r r' stock stock' h i = ground arith
settle_step-closed order_id release r r' stock stock' h i = ground arith

pub settle_rows-closed :
    (order_id : String) (target : ReservationSettlement) (rows rows' : List Reservation)
    (stock stock' : List Stock)
    → settle_rows order_id target rows stock ≡ some (rows', stock')
    → all (λ r. in_stock r.sku stock) rows ≡ true
    → all (is_closed order_id) rows' ≡ true
unfolding settle_rows
settle_rows-closed order_id target [] rows' stock stock' h i = ground arith
settle_rows-closed order_id target (r ∷ rows) rows' stock stock' h i =
    elim (Option-cases (settle_step order_id target r stock)) [
      | inl failed ↦ ground arith
      | inr ((r1, stock1), stepped) ↦
          elim (Option-cases (settle_rows order_id target rows stock1)) [
            | inl failed ↦ ground arith
            | inr ((rows2, stock2), moved) ↦ ground (
              arith,
              settle_step-closed order_id target r r1 stock stock1 stepped,
              settle_rows-closed order_id target rows rows2 stock1 stock2 moved,
              all-in_stock order_id target r r1 stock stock1 rows stepped,
            )
          ]
    ]

settle_step-again :
    (order_id : String) (target : ReservationSettlement) (r : Reservation) (stock : List Stock)
    → is_closed order_id r ≡ true
    → settle_step order_id target r stock ≡ some (r, stock)
unfolding settle_step settle_row
settle_step-again order_id target r stock c = ground arith

settle_rows-again :
    (order_id : String) (target : ReservationSettlement) (rows : List Reservation)
    (stock : List Stock)
    → all (is_closed order_id) rows ≡ true
    → settle_rows order_id target rows stock ≡ some (rows, stock)
unfolding settle_rows
settle_rows-again order_id target [] stock c = refl
settle_rows-again order_id target (r ∷ rows) stock c =
    ground (
      arith,
      settle_step-again order_id target r stock,
      settle_rows-again order_id target rows stock,
    )

is_none : List Reservation → Bool
is_none [] = true
is_none (r ∷ rows) = false

order_of-settle_step :
    (order_id : String) (target : ReservationSettlement) (r r' : Reservation)
    (stock stock' : List Stock)
    → settle_step order_id target r stock ≡ some (r', stock')
    → r'.order_id ≡ r.order_id
unfolding settle_step settle_row
order_of-settle_step order_id commit r r' stock stock' h = ground arith
order_of-settle_step order_id release r r' stock stock' h = ground arith

of_order-settle_rows :
    (order_id id : String) (target : ReservationSettlement) (rows rows' : List Reservation)
    (stock stock' : List Stock)
    → settle_rows order_id target rows stock ≡ some (rows', stock')
    → is_none (of_order id rows') ≡ is_none (of_order id rows)
unfolding settle_rows of_order is_none
of_order-settle_rows order_id id target [] rows' stock stock' h = ground arith
of_order-settle_rows order_id id target (r ∷ rows) rows' stock stock' h =
    elim (Option-cases (settle_step order_id target r stock)) [
      | inl failed ↦ ground arith
      | inr ((r1, stock1), stepped) ↦
          elim (Option-cases (settle_rows order_id target rows stock1)) [
            | inl failed ↦ ground arith
            | inr ((rows2, stock2), moved) ↦ ground (
              arith,
              order_of-settle_step order_id target r r1 stock stock1 stepped,
              of_order-settle_rows order_id id target rows rows2 stock1 stock2 moved,
            )
          ]
    ]

-- With a database that answers and reservations whose skus are all in the stock, after a
-- settlement that succeeded every later settlement of that order, to the same status or the other
-- one, succeeds and changes nothing.
pub settle_reservation-final :
    (order_id : String) (target later : ReservationSettlement) (db db' : Db)
    → HasStock db
    → settle_reservation order_id target false db ≡ (ok tt, db')
    → settle_reservation order_id later false db' ≡ (ok tt, db')
unfolding settle_reservation is_none
settle_reservation-final order_id target later db db' i h =
    elim (List-cases (of_order order_id db.reservations)) [
      | inl nothing ↦ ground arith
      | inr (r, old, there) ↦
          let moved : settle_rows order_id target db.reservations db.stock
              ≡ some (db'.reservations, db'.stock) =
            ground arith in
          let again = settle_rows-again order_id later db'.reservations db'.stock (
            settle_rows-closed order_id target db.reservations db'.reservations db.stock db'.stock
              moved i) in
          elim (List-cases (of_order order_id db'.reservations)) [
            | inl lost ↦ ground (
              arith,
              of_order-settle_rows order_id order_id target db.reservations db'.reservations
                  db.stock db'.stock moved,
            )
            | inr (q, rest, kept) ↦ rw (kept, again)
          ]
    ]
