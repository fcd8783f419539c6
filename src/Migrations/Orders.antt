-- ===== src/Migrations/Orders.antt =====
-- src/database/migrations of apps/order-api.
use logistics_order_fulfillm.Prelude.{List, [], false, none, some, true, ◌∷◌}
use logistics_order_fulfillm.Migrations.Ddl.{
  Statement, create_table, drop_constraint, drop_column, column, drop_index, unique, drop_table,
  check, primary_key, create_index, add_foreign_key, add_column,
}

unfoldable pub init_order_api_schema_up : List Statement
init_order_api_schema_up =
    create_table "order_api" "customers"
      (column "id" "uuid" true (some "gen_random_uuid()")
        ∷ column "full_name" "character varying(255)" true none
        ∷ column "email" "character varying(255)" true none
        ∷ column "created_at" "TIMESTAMP WITH TIME ZONE" true (some "now()")
        ∷ [])
      (unique "UQ_8536b8b85c06969f84f0c098b03" ("email" ∷ [])
        ∷ primary_key "PK_133ec679a801fab5e070f73d3ea" ("id" ∷ [])
        ∷ [])
    ∷ create_table "order_api" "order_items"
        (column "id" "uuid" true (some "gen_random_uuid()")
          ∷ column "order_id" "uuid" true none
          ∷ column "sku" "character varying(50)" true none
          ∷ column "qty" "integer" true none
          ∷ column "unit_price" "numeric(10,2)" true none
          ∷ [])
        (check "CHK_46bd93eb22f1b9e485817fa953" "\"unit_price\" >= 0"
          ∷ check "CHK_b92fec8668d71547482f1e5d2c" "\"qty\" > 0"
          ∷ primary_key "PK_005269d8574e6fac0493715c308" ("id" ∷ [])
          ∷ [])
    ∷ create_index "order_api" "idx_order_items_order_id" "order_items" ("order_id" ∷ []) none
    ∷ create_table "order_api" "orders"
        (column "id" "uuid" true (some "gen_random_uuid()")
          ∷ column "customer_id" "uuid" true none
          ∷ column "status" "character varying(20)" true (some "'PLACED'")
          ∷ column "delivery_address" "text" true none
          ∷ column "branch_id" "character varying(20)" true none
          ∷ column "total_value" "numeric(10,2)" true none
          ∷ column "created_at" "TIMESTAMP WITH TIME ZONE" true (some "now()")
          ∷ column "updated_at" "TIMESTAMP WITH TIME ZONE" true (some "now()")
          ∷ [])
        (check "CHK_fc244d7f0f2795b3bf45091e77" "\"total_value\" >= 0"
          ∷ check "CHK_f36ae2e49ccb39de4ec8f90130"
              "\"status\" IN ('PLACED','PAYMENT_CONFIRMED','PICKING','PACKED','SHIPPED','DELIVERED','CANCELLED')"
          ∷ primary_key "PK_710e2d4957aa5878dfe94e4ac2f" ("id" ∷ [])
          ∷ [])
    ∷ create_index "order_api" "idx_orders_customer_id" "orders" ("customer_id" ∷ []) none
    ∷ create_index "order_api" "idx_orders_status" "orders" ("status" ∷ []) none
    ∷ add_foreign_key "order_api" "order_items" "FK_145532db85752b29c57d2b7b1f1" "order_id" "orders"
        "id" "CASCADE"
    ∷ add_foreign_key "order_api" "orders" "FK_772d0ce0473ac2ccfa26060dbe9" "customer_id"
        "customers" "id" "NO ACTION"
    ∷ []

unfoldable pub init_order_api_schema_down : List Statement
init_order_api_schema_down =
    drop_constraint "order_api" "orders" "FK_772d0ce0473ac2ccfa26060dbe9"
    ∷ drop_constraint "order_api" "order_items" "FK_145532db85752b29c57d2b7b1f1"
    ∷ drop_index "order_api" "idx_orders_status"
    ∷ drop_index "order_api" "idx_orders_customer_id"
    ∷ drop_table "order_api" "orders"
    ∷ drop_index "order_api" "idx_order_items_order_id"
    ∷ drop_table "order_api" "order_items"
    ∷ drop_table "order_api" "customers"
    ∷ []

unfoldable pub add_outbox_and_trace_id_up : List Statement
add_outbox_and_trace_id_up =
    create_table "order_api" "outbox"
      (column "id" "BIGSERIAL" true none
        ∷ column "channel" "character varying(20)" true none
        ∷ column "routing_key" "character varying(100)" true none
        ∷ column "aggregate_type" "character varying(50)" true (some "'order'")
        ∷ column "aggregate_id" "uuid" true none
        ∷ column "event_type" "character varying(50)" true none
        ∷ column "payload" "jsonb" true none
        ∷ column "created_at" "TIMESTAMP WITH TIME ZONE" true (some "now()")
        ∷ column "published_at" "TIMESTAMP WITH TIME ZONE" false none
        ∷ [])
      (check "CHK_e8d953a7d663ee773bfb4a877e" "\"channel\" IN ('kafka','rabbitmq')"
        ∷ primary_key "PK_340ab539f309f03bdaa14aa7649" ("id" ∷ [])
        ∷ [])
    ∷ create_index "order_api" "idx_outbox_unpublished" "outbox" ("created_at" ∷ [])
        (some "\"published_at\" IS NULL")
    ∷ add_column "order_api" "orders" (column "trace_id" "uuid" true (some "gen_random_uuid()"))
    ∷ []

unfoldable pub add_outbox_and_trace_id_down : List Statement
add_outbox_and_trace_id_down =
    drop_column "order_api" "orders" "trace_id"
    ∷ drop_index "order_api" "idx_outbox_unpublished"
    ∷ drop_table "order_api" "outbox"
    ∷ []
