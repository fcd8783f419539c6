-- ===== src/Examples/Catalogs.antt =====
-- A database whose catalog is the list of what was made and not dropped again.
use logistics_order_fulfillm.Prelude.{
  Bool, List, Option, [], arith, false, if◌then◌else◌, refl, some, true, ◌++◌, ◌∷◌, ◌≡◌,
}
use logistics_order_fulfillm.Migrations.Ddl.{
  migrate, run, Database, Statement, create_table, drop_column, drop_constraint, drop_index,
  drop_table, revert, undoes,
}
use logistics_order_fulfillm.Migrations.Orders.{
  add_outbox_and_trace_id_up, init_order_api_schema_up,
}
use logistics_order_fulfillm.Migrations.Revert.{rev, order_api, migrations, revert_lem, rev}

-- the statement drops something
is_drop : Statement → Bool
is_drop (drop_table schema table) = true
is_drop (drop_index schema name) = true
is_drop (drop_constraint schema table name) = true
is_drop (drop_column schema table name) = true
is_drop _ = false

undoes-made : (drop made : Statement) → undoes drop made ≡ true → is_drop made ≡ false
unfolding undoes is_drop
undoes-made (create_table s t c k) made h = absurd (ground arith)
undoes-made drop (create_table s t c k) h = refl
undoes-made drop made h = ground arith

undoes-drop : (s made : Statement) → is_drop s ≡ false → undoes s made ≡ false
unfolding undoes is_drop
undoes-drop (create_table s t c k) made h = refl
undoes-drop s made h = ground arith

query_list : Statement → List Statement → Option (List Statement)
query_list s [] = some (s ∷ [])
query_list s (t ∷ made) = if undoes s t then some made else some (s ∷ t ∷ made)

query_list-dropped :
    (drop made : Statement) (before after : List Statement)
    → undoes drop made ≡ true
    → query_list made before ≡ some after
    → query_list drop after ≡ some before
unfolding query_list
query_list-dropped drop made [] after u h = ground arith
query_list-dropped drop made (t ∷ before) after u h =
    ground (arith, undoes-drop made t (undoes-made drop made u))

abbrev listed : Database
listed = record { Catalog = List Statement; query = query_list; dropped = query_list-dropped }

abbrev made : List Statement
made = rev (init_order_api_schema_up ++ add_outbox_and_trace_id_up)

revert_lem_example : revert listed (migrations order_api) made ≡ some []
unfolding query_list migrate migrations run rev undoes init_order_api_schema_up
    add_outbox_and_trace_id_up
revert_lem_example = revert_lem listed order_api [] made refl
