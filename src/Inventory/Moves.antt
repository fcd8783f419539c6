-- ===== src/Inventory/Moves.antt =====
-- How a settlement moves goods (`settleReservation` of
-- apps/inventory-service/src/inventory/inventory.service.ts).
use logistics_order_fulfillm.Prelude.{
  ◌+◌, ◌-◌, String, ◌≡◌, some, List, [], ◌∷◌, ◌==◌, arith, eq_iff, Option-cases, Bool-cases, inl,
  inr,
}
use logistics_order_fulfillm.Prelude.Table
use logistics_order_fulfillm.Inventory.Entities.{
  reserved, committed, Stock, Reservation, ReservationSettlement, commit, release,
}
use logistics_order_fulfillm.Inventory.Service.{settle_row, settle_step, settle_rows}
use logistics_order_fulfillm.Inventory.Conservation.{available, reserved_qty, amount}

-- From some rows and a stock to others, goods moved out of the reserved quantity as the rows say,
-- into the available one or into what is sold.
pub record Moved (rows : List Reservation) (stock : List Stock) (rows' : List Reservation)
    (stock' : List Stock) : Type 0 where
  pub goods :
      (sku : String)
      → available sku stock' + reserved_qty sku stock' + amount committed sku rows'
        ≡ available sku stock + reserved_qty sku stock + amount committed sku rows
  pub balance :
      (sku : String)
      → reserved_qty sku stock' + amount reserved sku rows
        ≡ reserved_qty sku stock + amount reserved sku rows'

settle_row-Moved :
    (target : ReservationSettlement) (r r' : Reservation) (stock stock' : List Stock)
    → settle_row target r stock ≡ some (r', stock')
    → Moved (r ∷ []) stock (r' ∷ []) stock'
unfolding settle_row
settle_row-Moved commit r r' stock stock' h =
    elim (Option-cases (Table.find (λ s. s.sku) r.sku stock)) [
      | inl missing ↦ record { goods = λ sku. ground arith; balance = λ sku. ground arith }
      | inr (s, found) ↦
          let s' = record s { reserved_qty = s.reserved_qty - r.qty } in
          let same = Table.key-find (λ (s : Stock). s.sku) r.sku s stock found in
          record {
            goods = λ sku. ground (
              arith,
              Table.find-save (λ (s : Stock). s.sku) s' sku stock,
              eq_iff r.sku sku,
              eq_iff s.sku sku,
            );
            balance = λ sku. ground (
              arith,
              Table.find-save (λ (s : Stock). s.sku) s' sku stock,
              eq_iff r.sku sku,
              eq_iff s.sku sku,
            );
          }
    ]
settle_row-Moved release r r' stock stock' h =
    elim (Option-cases (Table.find (λ s. s.sku) r.sku stock)) [
      | inl missing ↦ record { goods = λ sku. ground arith; balance = λ sku. ground arith }
      | inr (s, found) ↦
          let s' = record s {
            reserved_qty = s.reserved_qty - r.qty;
            available_qty = s.available_qty + r.qty;
          } in
          let same = Table.key-find (λ (s : Stock). s.sku) r.sku s stock found in
          record {
            goods = λ sku. ground (
              arith,
              Table.find-save (λ (s : Stock). s.sku) s' sku stock,
              eq_iff r.sku sku,
              eq_iff s.sku sku,
            );
            balance = λ sku. ground (
              arith,
              Table.find-save (λ (s : Stock). s.sku) s' sku stock,
              eq_iff r.sku sku,
              eq_iff s.sku sku,
            );
          }
    ]

settle_step-Moved :
    (order_id : String) (target : ReservationSettlement) (r r' : Reservation)
    (stock stock' : List Stock)
    → settle_step order_id target r stock ≡ some (r', stock')
    → Moved (r ∷ []) stock (r' ∷ []) stock'
unfolding settle_step
settle_step-Moved order_id target r r' stock stock' h = elim (Bool-cases (r.order_id == order_id)) [
  | inl mine ↦ settle_row-Moved target r r' stock stock' (ground arith)
  | inr other ↦ record { goods = λ sku. ground arith; balance = λ sku. ground arith }
]

pub settle_rows-Moved :
    (order_id : String) (target : ReservationSettlement) (rows rows' : List Reservation)
    (stock stock' : List Stock)
    → settle_rows order_id target rows stock ≡ some (rows', stock')
    → Moved rows stock rows' stock'
unfolding settle_rows
settle_rows-Moved order_id target [] rows' stock stock' h = record {
  goods = λ sku. ground arith;
  balance = λ sku. ground arith;
}
settle_rows-Moved order_id target (r ∷ rows) rows' stock stock' h =
    elim (Option-cases (settle_step order_id target r stock)) [
      | inl failed ↦ ground arith
      | inr ((r1, stock1), first) ↦ elim (Option-cases (settle_rows order_id target rows stock1)) [
        | inl failed ↦ ground arith
        | inr ((rows1, stock2), later) ↦
            let one = settle_step-Moved order_id target r r1 stock stock1 first in
            let more = settle_rows-Moved order_id target rows rows1 stock1 stock2 later in
            record {
              goods = λ sku. ground (arith, one.goods sku, more.goods sku);
              balance = λ sku. ground (arith, one.balance sku, more.balance sku);
            }
      ]
    ]
