-- ===== src/Composition/Goods.antt =====
-- Which state the inventory leaves a reservation in, by the calls that it served
-- (apps/inventory-service/src/inventory/inventory.service.ts).
use logistics_order_fulfillm.Prelude.Table
use logistics_order_fulfillm.Prelude.Everywhere.{All-append}
use logistics_order_fulfillm.Prelude.{
  ℕ, String, ◌≡◌, Bool, some, List, [], ◌∷◌, ◌++◌, All, arith, ◌⊎◌, inl, inr, subst, Option-cases,
  sym, Bool-cases, ◌==◌, eq_iff, length,
}
use logistics_order_fulfillm.Inventory.Entities.{
  ReservationState, reserved, Stock, Reservation, Db, ReserveStockInput, ReserveStockItem,
  ReservationSettlement, target_status,
}
use logistics_order_fulfillm.Inventory.Service.{
  take_item, take_items, settle_row, settle_step, settle_rows, reserve_stock, settle_reservation,
}
use logistics_order_fulfillm.Inventory.Ledger.{reserve_stock-cases, settle_reservation-cases}

-- A property of an order and of the state of its reservations, which an open one has.
module _ (P : String → ReservationState → Type 0) (open_ok : (id : String) → P id reserved) where
  abbrev pub Holds : List Reservation → Type 0
  Holds = All (λ r. P r.order_id r.status)

  take_item-Holds :
      (order_id : String) (uuid : ℕ → String) (item : ReserveStockItem) (db db' : Db)
      → take_item order_id uuid item db ≡ some db'
      → Holds db.reservations
      → Holds db'.reservations
  unfolding take_item
  take_item-Holds order_id uuid item db db' h p =
      elim (Option-cases (Table.find (λ (s : Stock). s.sku) item.sku db.stock)) [
        | inl missing ↦ absurd (ground arith)
        | inr (s, found) ↦
            let row : Reservation = record {
              id = uuid (length db.reservations);
              order_id = order_id;
              sku = item.sku;
              qty = item.qty;
              status = reserved;
            } in
            let e : db.reservations ++ row ∷ [] ≡ db'.reservations = ground arith in
            subst Holds e (
              All-append (λ r. P r.order_id r.status) db.reservations (row ∷ []) p
                (open_ok order_id, tt))
      ]

  take_items-Holds :
      (order_id : String) (uuid : ℕ → String) (items : List ReserveStockItem) (db db' : Db)
      → take_items order_id uuid items db ≡ some db'
      → Holds db.reservations
      → Holds db'.reservations
  unfolding take_items
  take_items-Holds order_id uuid [] db db' h p =
      let same : db.reservations ≡ db'.reservations = ground arith in subst Holds same p
  take_items-Holds order_id uuid (item ∷ items) db db' h p =
      elim (Option-cases (take_item order_id uuid item db)) [
        | inl failed ↦ absurd (ground arith)
        | inr (db1, taken) ↦
            take_items-Holds order_id uuid items db1 db' (ground arith)
              (take_item-Holds order_id uuid item db db1 taken p)
      ]

  -- A reservation keeps this whatever the inventory reserves.
  pub reserve_stock-Holds :
      (input : ReserveStockInput) (uuid : ℕ → String) (fails : Bool) (db : Db)
      → Holds db.reservations
      → Holds (reserve_stock input uuid fails db).1.reservations
  reserve_stock-Holds input uuid fails db p = elim (reserve_stock-cases input uuid fails db) [
    | inl same ↦ subst (λ (d : Db). Holds d.reservations) (sym same) p
    | inr taken ↦ take_items-Holds input.order_id uuid input.items db _ taken p
  ]

  module _ (order_id : String) (target : ReservationSettlement)
      (settled_ok : P order_id (target_status target)) where
    settle_step-cases :
        (r r' : Reservation) (stock stock' : List Stock)
        → settle_step order_id target r stock ≡ some (r', stock')
        → (r' ≡ r) ⊎ ((r'.order_id ≡ order_id) × (r'.status ≡ target_status target))
    unfolding settle_step settle_row
    settle_step-cases r r' stock stock' h = elim (Bool-cases (r.order_id == order_id)) [
      | inl own ↦ ground (arith, eq_iff r.order_id order_id)
      | inr other ↦ inl (ground arith)
    ]

    settle_step-Holds :
        (r r' : Reservation) (stock stock' : List Stock)
        → settle_step order_id target r stock ≡ some (r', stock')
        → P r.order_id r.status
        → P r'.order_id r'.status
    settle_step-Holds r r' stock stock' h p = elim (settle_step-cases r r' stock stock' h) [
      | inl same ↦ subst (λ (q : Reservation). P q.order_id q.status) (sym same) p
      | inr (own, moved) ↦ rw (own, moved) settled_ok
    ]

    settle_rows-Holds :
        (rows rows' : List Reservation) (stock stock' : List Stock)
        → settle_rows order_id target rows stock ≡ some (rows', stock')
        → Holds rows
        → Holds rows'
    unfolding settle_rows
    settle_rows-Holds [] rows' stock stock' h p =
        let same : [] ≡ rows' = ground arith in subst Holds same p
    settle_rows-Holds (r ∷ rows) rows' stock stock' h p =
        elim (Option-cases (settle_step order_id target r stock)) [
          | inl failed ↦ absurd (ground arith)
          | inr ((r1, stock1), stepped) ↦
              elim (Option-cases (settle_rows order_id target rows stock1)) [
                | inl failed ↦ absurd (ground arith)
                | inr ((rows2, stock2), moved) ↦
                    let e : r1 ∷ rows2 ≡ rows' = ground arith in
                    subst Holds e (
                      settle_step-Holds r r1 stock stock1 stepped p.0,
                      settle_rows-Holds rows rows2 stock1 stock2 moved p.1,
                    )
              ]
        ]

    -- It keeps it in a settlement of an order that has it in the state that is aimed at.
    pub settle_reservation-Holds :
        (fails : Bool) (db : Db)
        → Holds db.reservations
        → Holds (settle_reservation order_id target fails db).1.reservations
    settle_reservation-Holds fails db p = elim (settle_reservation-cases order_id target fails db) [
      | inl same ↦ subst (λ (d : Db). Holds d.reservations) (sym same) p
      | inr moved ↦ settle_rows-Holds db.reservations _ db.stock _ moved p
    ]
