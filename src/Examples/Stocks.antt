-- ===== src/Examples/Stocks.antt =====
-- The inventory service at concrete inputs.
use logistics_order_fulfillm.Prelude.{
  ◌≡◌, refl, ◌≤◌, ◌+◌, String, false, [], ◌∷◌, ok, err, arith, eq_iff,
}
use logistics_order_fulfillm.Contracts.Delivery.{reserved}
use logistics_order_fulfillm.Inventory.Entities
use logistics_order_fulfillm.Inventory.Service.{
  result_of, reserve_stock, take_item, take_items, unavailable, of_order,
}
use logistics_order_fulfillm.Inventory.Conservation.{owned, demanded, Took, available, reserved_qty}
use logistics_order_fulfillm.Inventory.Ledger.{IsBalanced, serve, owned-serve, serve-IsBalanced}
use logistics_order_fulfillm.Inventory.Reserve.{
  reserve_stock-reserved, reserve_stock-overdrawn, reserve_stock-total,
}
use logistics_order_fulfillm.Prelude.Table.{find, save}
use logistics_order_fulfillm.Examples.Samples.{shelf, uuid, two_lines, twice_a, calls}

abbrev after : Entities.Db
after = record {
  stock =
      record { sku = "A"; available_qty = 2; reserved_qty = 3 }
      ∷ record { sku = "B"; available_qty = 0; reserved_qty = 1 }
      ∷ [];
  reservations =
      record { id = "row"; order_id = "order-1"; sku = "A"; qty = 3; status = Entities.reserved }
      ∷ record { id = "row"; order_id = "order-1"; sku = "B"; qty = 1; status = Entities.reserved }
      ∷ [];
}

reserved_once :
    reserve_stock two_lines uuid false shelf ≡ (ok (result_of two_lines reserved), after)
unfolding reserve_stock of_order unavailable take_items take_item find save
reserved_once = refl

owned-serve_example : owned "A" (serve calls shelf) ≡ owned "A" shelf
owned-serve_example = owned-serve calls shelf "A"

shelf-IsBalanced : IsBalanced shelf
unfolding find
shelf-IsBalanced sku = ground arith

serve-IsBalanced_example : IsBalanced (serve calls shelf)
serve-IsBalanced_example = serve-IsBalanced calls shelf shelf-IsBalanced

reserve_stock-reserved_example : Took (λ sku. demanded sku two_lines.items) shelf after
unfolding of_order
reserve_stock-reserved_example =
    reserve_stock-reserved two_lines uuid shelf refl after reserved_once

reserve_stock-overdrawn_example :
    reserve_stock twice_a uuid false shelf ≡ (err Entities.database_error, shelf)
unfolding of_order unavailable find
reserve_stock-overdrawn_example =
    reserve_stock-overdrawn twice_a uuid shelf "A" refl refl (omega arith)

fits_two_lines : (sku : String) → demanded sku two_lines.items ≤ available sku shelf.stock
unfolding find
fits_two_lines sku = ground (arith, eq_iff "A" sku, eq_iff "B" sku)

room_for_two_lines :
    (sku : String) → reserved_qty sku shelf.stock + demanded sku two_lines.items ≤ Entities.int_max
unfolding find
room_for_two_lines sku = ground (arith, eq_iff "A" sku, eq_iff "B" sku)

reserve_stock-total_example :
    (reserve_stock two_lines uuid false shelf).0 ≡ ok (result_of two_lines reserved)
unfolding of_order
reserve_stock-total_example =
    reserve_stock-total two_lines uuid shelf refl (omega arith) fits_two_lines room_for_two_lines
