-- ===== src/Migrations/Stock.antt =====
-- src/database/migrations of apps/inventory-service.
use logistics_order_fulfillm.Prelude.{List, [], none, some, true, ◌∷◌}
use logistics_order_fulfillm.Migrations.Ddl.{
  Statement, create_table, drop_constraint, column, drop_index, check, drop_table, primary_key,
  create_index, add_foreign_key,
}

unfoldable pub init_inventory_schema_up : List Statement
init_inventory_schema_up =
    create_table "inventory" "stock"
      (column "sku" "character varying(50)" true none
        ∷ column "available_qty" "integer" true none
        ∷ column "reserved_qty" "integer" true (some "'0'")
        ∷ column "updated_at" "TIMESTAMP WITH TIME ZONE" true (some "now()")
        ∷ [])
      (check "CHK_3d60e3010c09d1c983170ee804" "\"reserved_qty\" >= 0"
        ∷ check "CHK_5060654050f3c5c382d81ec9aa" "\"available_qty\" >= 0"
        ∷ primary_key "PK_e1b4a2b9011bc3d2598256448c6" ("sku" ∷ [])
        ∷ [])
    ∷ create_table "inventory" "reservations"
        (column "id" "uuid" true (some "gen_random_uuid()")
          ∷ column "order_id" "uuid" true none
          ∷ column "sku" "character varying(50)" true none
          ∷ column "qty" "integer" true none
          ∷ column "status" "character varying(20)" true (some "'RESERVED'")
          ∷ column "created_at" "TIMESTAMP WITH TIME ZONE" true (some "now()")
          ∷ [])
        (check "CHK_46cc1f815c3f9bef9680ab8ccf" "\"status\" IN ('RESERVED','COMMITTED','RELEASED')"
          ∷ check "CHK_942fd9a72776ba491313a4d9c1" "\"qty\" > 0"
          ∷ primary_key "PK_da95cef71b617ac35dc5bcda243" ("id" ∷ [])
          ∷ [])
    ∷ create_index "inventory" "idx_reservations_order_id" "reservations" ("order_id" ∷ []) none
    ∷ create_index "inventory" "idx_reservations_sku" "reservations" ("sku" ∷ []) none
    ∷ add_foreign_key "inventory" "reservations" "FK_66bff24d09df1a27abf34d44866" "sku" "stock"
        "sku" "NO ACTION"
    ∷ []

unfoldable pub init_inventory_schema_down : List Statement
init_inventory_schema_down =
    drop_constraint "inventory" "reservations" "FK_66bff24d09df1a27abf34d44866"
    ∷ drop_index "inventory" "idx_reservations_sku"
    ∷ drop_index "inventory" "idx_reservations_order_id"
    ∷ drop_table "inventory" "reservations"
    ∷ drop_table "inventory" "stock"
    ∷ []
