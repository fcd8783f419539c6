-- ===== src/Inventory/SettleTotal.antt =====
-- A settlement that the stock can bear does not fail
-- (`settleReservation` of apps/inventory-service/src/inventory/inventory.service.ts).
use logistics_order_fulfillm.Prelude.{
  ◌+◌, ◌-◌, ◌≤◌, String, ◌≡◌, refl, Bool, false, some, List, [], ◌∷◌, ok, arith, ◌==◌, eq_iff,
  eq_refl, Bool-cases, ◌&&◌, Option-cases, List-cases, inl, inr, ◌>>=◌, ◌≢◌,
}
use logistics_order_fulfillm.Prelude.Table
use logistics_order_fulfillm.Inventory.Entities.{
  reserved, committed, released, Stock, Reservation, Db, ReservationSettlement, commit, release,
  same_state, int_max,
}
use logistics_order_fulfillm.Inventory.Service.{
  of_order, settle_row, settle_step, settle_rows, settle_reservation,
}
use logistics_order_fulfillm.Inventory.Conservation.{available, reserved_qty, amount, owned}
use logistics_order_fulfillm.Inventory.Ledger.{IsBalanced}

-- The open reservations are held in the stock, and no column can overflow.
record Bears (rows : List Reservation) (stock : List Stock) : Type 0 where
  held : (sku : String) → amount reserved sku rows ≤ reserved_qty sku stock
  room : (sku : String) → available sku stock + reserved_qty sku stock ≤ int_max

abbrev acts : String → Reservation → Bool
acts order_id r = (r.order_id == order_id) && same_state r.status reserved

tail-Bears :
    (r : Reservation) (rows : List Reservation) (stock : List Stock)
    → Bears (r ∷ rows) stock
    → Bears rows stock
tail-Bears r rows stock b = record { held = λ sku. ground (arith, b.held sku); room = b.room }

settle_step-total :
    (order_id : String) (target : ReservationSettlement) (r : Reservation) (rows : List Reservation)
    (stock : List Stock)
    → Bears (r ∷ rows) stock
    → (r' : Reservation) × (stock' : List Stock) × (settle_step order_id target r stock
        ≡ some (r', stock'))
      × Bears rows stock'
unfolding settle_step settle_row
settle_step-total order_id commit r rows stock b = elim (Bool-cases (acts order_id r)) [
  | inl open_row ↦ elim (Option-cases (Table.find (λ s. s.sku) r.sku stock)) [
    | inl missing ↦ (r, stock, ground arith, tail-Bears r rows stock b)
    | inr (s, found) ↦
        let same = Table.key-find (λ (s : Stock). s.sku) r.sku s stock found in
        let s' = record s { reserved_qty = s.reserved_qty - r.qty } in
        let fits : r.qty + amount reserved r.sku rows ≤ s.reserved_qty =
          ground (arith, b.held r.sku, eq_refl r.sku) in
        (
          record r { status = committed },
          Table.save (λ s. s.sku) s' stock,
          ground (arith, b.room r.sku),
          record {
            held = λ sku. ground (
              arith,
              b.held sku,
              Table.find-save (λ (s : Stock). s.sku) s' sku stock,
              eq_iff r.sku sku,
              eq_iff s.sku sku,
            );
            room = λ sku. ground (
              arith,
              b.room sku,
              Table.find-save (λ (s : Stock). s.sku) s' sku stock,
              eq_iff r.sku sku,
              eq_iff s.sku sku,
            );
          },
        )
  ]
  | inr shut ↦ (r, stock, ground arith, tail-Bears r rows stock b)
]
settle_step-total order_id release r rows stock b = elim (Bool-cases (acts order_id r)) [
  | inl open_row ↦ elim (Option-cases (Table.find (λ s. s.sku) r.sku stock)) [
    | inl missing ↦ (r, stock, ground arith, tail-Bears r rows stock b)
    | inr (s, found) ↦
        let same = Table.key-find (λ (s : Stock). s.sku) r.sku s stock found in
        let s' = record s {
          reserved_qty = s.reserved_qty - r.qty;
          available_qty = s.available_qty + r.qty;
        } in
        let fits : r.qty + amount reserved r.sku rows ≤ s.reserved_qty =
          ground (arith, b.held r.sku, eq_refl r.sku) in
        (
          record r { status = released },
          Table.save (λ s. s.sku) s' stock,
          ground (arith, b.room r.sku),
          record {
            held = λ sku. ground (
              arith,
              b.held sku,
              Table.find-save (λ (s : Stock). s.sku) s' sku stock,
              eq_iff r.sku sku,
              eq_iff s.sku sku,
            );
            room = λ sku. ground (
              arith,
              b.room sku,
              Table.find-save (λ (s : Stock). s.sku) s' sku stock,
              eq_iff r.sku sku,
              eq_iff s.sku sku,
            );
          },
        )
  ]
  | inr shut ↦ (r, stock, ground arith, tail-Bears r rows stock b)
]

settle_rows-total :
    (order_id : String) (target : ReservationSettlement) (rows : List Reservation)
    (stock : List Stock)
    → Bears rows stock
    → (rows' : List Reservation) × (stock' : List Stock) × (settle_rows order_id target rows stock
        ≡ some (rows', stock'))
unfolding settle_rows
settle_rows-total order_id target [] stock b = ([], stock, refl)
settle_rows-total order_id target (r ∷ rows) stock b =
    let (r', stock1, stepped, b1) = settle_step-total order_id target r rows stock b in
    let (rows', stock2, moved) = settle_rows-total order_id target rows stock1 b1 in
    (r' ∷ rows', stock2, rw (stepped, ◌>>=◌, moved, ◌>>=◌))

-- With a database that answers and a balanced stock of which each sku's available, reserved and
-- committed units fit an integer column together, the settlement of an order that has reservations
-- succeeds.
pub settle_reservation-total :
    (order_id : String) (target : ReservationSettlement) (db : Db)
    → IsBalanced db
    → ((sku : String) → owned sku db ≤ int_max)
    → of_order order_id db.reservations ≢ []
    → (settle_reservation order_id target false db).0 ≡ ok tt
unfolding settle_reservation
settle_reservation-total order_id target db balanced room there =
    elim (List-cases (of_order order_id db.reservations)) [
      | inl nothing ↦ absurd (there nothing)
      | inr (r, old, some_rows) ↦
          let (rows', stock', moved) =
            settle_rows-total order_id target db.reservations db.stock (record {
              held = λ sku. omega (arith, balanced sku);
              room = λ sku. omega (arith, room sku);
            }) in
          rw (some_rows, moved)
    ]
