-- ===== src/Inventory/Ledger.antt =====
-- The stock ledger over any sequence of calls of the inventory service
-- (apps/inventory-service/src/inventory/inventory.service.ts).
use logistics_order_fulfillm.Prelude.{
  ℕ, String, ◌≡◌, refl, Bool, some, List, [], ◌∷◌, ◌⊎◌, inl, inr, arith, subst, sym,
}
use logistics_order_fulfillm.Inventory.Entities.{
  reserved, Db, ReserveStockInput, ReservationSettlement,
}
use logistics_order_fulfillm.Inventory.Service.{
  take_items, reserve_stock, settle_rows, settle_reservation,
}
use logistics_order_fulfillm.Inventory.Moves.{settle_rows-Moved}
use logistics_order_fulfillm.Inventory.Conservation.{reserved_qty, amount, owned, take_items-Took}

-- The reserved quantity of each sku is that of the reservations which are not settled.
abbrev pub IsBalanced : Db → Type 0
IsBalanced db = (sku : String) → reserved_qty sku db.stock ≡ amount reserved sku db.reservations

pub reserve_stock-cases :
    (input : ReserveStockInput) (uuid : ℕ → String) (fails : Bool) (db : Db)
    → let db' = (reserve_stock input uuid fails db).1 in
      (db' ≡ db) ⊎ (take_items input.order_id uuid input.items db ≡ some db')
unfolding reserve_stock
reserve_stock-cases input uuid fails db = ground arith

pub settle_reservation-cases :
    (order_id : String) (target : ReservationSettlement) (fails : Bool) (db : Db)
    → let db' = (settle_reservation order_id target fails db).1 in
      (db' ≡ db)
      ⊎ (settle_rows order_id target db.reservations db.stock ≡ some (db'.reservations, db'.stock))
unfolding settle_reservation
settle_reservation-cases order_id target fails db = ground arith

-- A call that the service handles.
pub data Call : Type 0 where
  reserve : ReserveStockInput → (ℕ → String) → Bool → Call
  settle : String → ReservationSettlement → Bool → Call

unfoldable pub perform : Call → Db → Db
perform (reserve input uuid fails) db = (reserve_stock input uuid fails db).1
perform (settle order_id target fails) db = (settle_reservation order_id target fails db).1

pub serve : List Call → Db → Db
serve [] db = db
serve (c ∷ cs) db = serve cs (perform c db)

-- what one call keeps
pub record Keeps (db db' : Db) : Type 0 where
  pub goods : (sku : String) → owned sku db' ≡ owned sku db
  pub balance : IsBalanced db → IsBalanced db'

Keeps-refl : (db : Db) → Keeps db db
Keeps-refl db = record { goods = λ sku. refl; balance = λ b. b }

pub perform-Keeps : (c : Call) (db : Db) → Keeps db (perform c db)
unfolding perform
perform-Keeps (reserve input uuid fails) db = elim (reserve_stock-cases input uuid fails db) [
  | inl same ↦ subst (Keeps db) (sym same) (Keeps-refl db)
  | inr taken ↦
      let t = take_items-Took input.order_id uuid input.items db _ taken in
      record {
        goods = λ sku. omega (arith, t.from_available sku, t.to_reserved sku, t.sold_kept sku);
        balance = λ b sku. omega (arith, t.to_reserved sku, t.to_held sku, b sku);
      }
]
perform-Keeps (settle order_id target fails) db =
    elim (settle_reservation-cases order_id target fails db) [
      | inl same ↦ subst (Keeps db) (sym same) (Keeps-refl db)
      | inr moved ↦
          let m = settle_rows-Moved order_id target db.reservations _ db.stock _ moved in
          record {
            goods = λ sku. m.goods sku;
            balance = λ b sku. omega (arith, m.balance sku, b sku);
          }
    ]

-- Over any list of reservations and settlements, whichever of them fail, the units of a sku that
-- are available or reserved in its stock row, or committed to an order, add up to the same number.
pub owned-serve : (cs : List Call) (db : Db) (sku : String) → owned sku (serve cs db) ≡ owned sku db
unfolding serve
owned-serve [] db sku = refl
owned-serve (c ∷ cs) db sku =
    omega (arith, owned-serve cs (perform c db) sku, (perform-Keeps c db).goods sku)

-- If the reserved quantity of each sku equals the sum of its reservations in state RESERVED, it
-- does so after any list of reservations and settlements, whichever of them fail.
pub serve-IsBalanced : (cs : List Call) (db : Db) → IsBalanced db → IsBalanced (serve cs db)
unfolding serve
serve-IsBalanced [] db b = b
serve-IsBalanced (c ∷ cs) db b = serve-IsBalanced cs (perform c db) ((perform-Keeps c db).balance b)
