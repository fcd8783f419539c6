-- ===== src/Migrations/Logs.antt =====
-- src/database/migrations of apps/audit-service, apps/analytics-service and apps/notification-service.
use logistics_order_fulfillm.Prelude.{List, [], false, none, some, true, ◌∷◌}
use logistics_order_fulfillm.Migrations.Ddl.{
  Statement, create_table, drop_index, column, drop_table, unique, check, primary_key, create_index,
}

unfoldable pub init_audit_schema_up : List Statement
init_audit_schema_up =
    create_table "audit" "order_status_log"
      (column "id" "BIGSERIAL" true none
        ∷ column "order_id" "uuid" true none
        ∷ column "customer_id" "uuid" true none
        ∷ column "previous_status" "character varying(20)" false none
        ∷ column "new_status" "character varying(20)" true none
        ∷ column "delivery_address" "text" true none
        ∷ column "order_value" "numeric(10,2)" true none
        ∷ column "items" "jsonb" true none
        ∷ column "branch_id" "character varying(20)" true none
        ∷ column "event_timestamp" "TIMESTAMP WITH TIME ZONE" true none
        ∷ column "recorded_at" "TIMESTAMP WITH TIME ZONE" true (some "now()")
        ∷ [])
      (unique "uq_audit_order_status" ("order_id" ∷ "new_status" ∷ [])
        ∷ primary_key "PK_cb57f320f79b86ff79cc2200630" ("id" ∷ [])
        ∷ [])
    ∷ create_index "audit" "idx_audit_order_id" "order_status_log" ("order_id" ∷ []) none
    ∷ []

unfoldable pub init_audit_schema_down : List Statement
init_audit_schema_down =
    drop_index "audit" "idx_audit_order_id" ∷ drop_table "audit" "order_status_log" ∷ []

unfoldable pub init_analytics_schema_up : List Statement
init_analytics_schema_up =
    create_table "analytics" "order_status_events"
      (column "id" "BIGSERIAL" true none
        ∷ column "order_id" "uuid" true none
        ∷ column "branch_id" "character varying(20)" true none
        ∷ column "previous_status" "character varying(20)" false none
        ∷ column "new_status" "character varying(20)" true none
        ∷ column "order_value" "numeric(10,2)" true none
        ∷ column "event_timestamp" "TIMESTAMP WITH TIME ZONE" true none
        ∷ column "ingested_at" "TIMESTAMP WITH TIME ZONE" true (some "now()")
        ∷ [])
      (unique "uq_analytics_order_status" ("order_id" ∷ "new_status" ∷ [])
        ∷ primary_key "PK_cee8187701a1f5ca1d3780f89dc" ("id" ∷ [])
        ∷ [])
    ∷ create_index "analytics" "idx_analytics_events_branch" "order_status_events"
        ("branch_id" ∷ []) none
    ∷ create_index "analytics" "idx_analytics_events_status" "order_status_events"
        ("new_status" ∷ []) none
    ∷ create_index "analytics" "idx_analytics_events_timestamp" "order_status_events"
        ("event_timestamp" ∷ []) none
    ∷ []

unfoldable pub init_analytics_schema_down : List Statement
init_analytics_schema_down =
    drop_index "analytics" "idx_analytics_events_timestamp"
    ∷ drop_index "analytics" "idx_analytics_events_status"
    ∷ drop_index "analytics" "idx_analytics_events_branch"
    ∷ drop_table "analytics" "order_status_events"
    ∷ []

unfoldable pub init_notification_schema_up : List Statement
init_notification_schema_up =
    create_table "notification" "notification_log"
      (column "id" "uuid" true (some "gen_random_uuid()")
        ∷ column "order_id" "uuid" true none
        ∷ column "customer_id" "uuid" true none
        ∷ column "type" "character varying(30)" true none
        ∷ column "channel" "character varying(10)" true none
        ∷ column "status" "character varying(20)" true (some "'SENT'")
        ∷ column "sent_at" "TIMESTAMP WITH TIME ZONE" true (some "now()")
        ∷ [])
      (check "CHK_2d241d3ac00a0f1ba57bab9079" "\"status\" IN ('SENT','FAILED')"
        ∷ check "CHK_40a4a4e9b304a172488a65fa89" "\"channel\" IN ('EMAIL','SMS')"
        ∷ primary_key "PK_6f761cfbbd064e0f326960877d6" ("id" ∷ [])
        ∷ [])
    ∷ create_index "notification" "idx_notification_log_order_id" "notification_log"
        ("order_id" ∷ []) none
    ∷ []

unfoldable pub init_notification_schema_down : List Statement
init_notification_schema_down =
    drop_index "notification" "idx_notification_log_order_id"
    ∷ drop_table "notification" "notification_log"
    ∷ []
