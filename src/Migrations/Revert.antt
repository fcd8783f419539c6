-- ===== src/Migrations/Revert.antt =====
-- That the migrations can be taken back (src/database/migrations of each service).
use logistics_order_fulfillm.Prelude.{
  All, Bool, List, Option-cases, [], arith, false, inl, inr, refl, some, true, ◌&&◌, ◌++◌, ◌>>=◌,
  ◌∷◌, ◌≡◌,
}
use logistics_order_fulfillm.Migrations.Ddl.{
  run, Database, Migration, Statement, migrate, revert, undoes,
}
use logistics_order_fulfillm.Migrations.Orders.{
  add_outbox_and_trace_id_down, add_outbox_and_trace_id_up, init_order_api_schema_down,
  init_order_api_schema_up,
}
use logistics_order_fulfillm.Migrations.Logs.{
  init_analytics_schema_down, init_analytics_schema_up, init_audit_schema_down,
  init_audit_schema_up, init_notification_schema_up, init_notification_schema_down,
}
use logistics_order_fulfillm.Migrations.Stock.{init_inventory_schema_down, init_inventory_schema_up}

unfoldable pub rev : List Statement → List Statement
rev [] = []
rev (s ∷ ss) = rev ss ++ s ∷ []

-- Each statement of the first list undoes the one at its place in the second.
undo_each : List Statement → List Statement → Bool
undo_each [] [] = true
undo_each (u ∷ us) (s ∷ ss) = undoes u s && undo_each us ss
undo_each _ _ = false

-- The down is the up in reverse, each statement undone.
IsMirror : Migration → Type 0
IsMirror m = (rev (rev m.up) ≡ m.up) × (undo_each m.down (rev m.up) ≡ true)

module _ (db : Database) where
  run-append :
      (ss : List Statement) (s : Statement) (d d' : db.Catalog)
      → run db (ss ++ s ∷ []) d ≡ some d'
      → (mid : db.Catalog) × (run db ss d ≡ some mid) × (db.query s mid ≡ some d')
  unfolding run
  run-append [] s d d' h = (
    d,
    refl,
    elim (Option-cases (db.query s d)) [
      | inl refused ↦ absurd (ground arith)
      | inr (e, fine) ↦ ground arith
    ],
  )
  run-append (t ∷ ss) s d d' h = elim (Option-cases (db.query t d)) [
    | inl refused ↦ absurd (ground arith)
    | inr (d1, fine) ↦
        let (mid, before, last) = run-append ss s d1 d' (ground arith) in (mid, ground arith, last)
  ]

  run_back :
      (us ss : List Statement) (d d' : db.Catalog)
      → undo_each us ss ≡ true
      → run db (rev ss) d ≡ some d'
      → run db us d' ≡ some d
  unfolding run rev undo_each
  run_back [] [] d d' u h = ground arith
  run_back [] (s ∷ ss) d d' u h = absurd (ground arith)
  run_back (v ∷ us) [] d d' u h = absurd (ground arith)
  run_back (v ∷ us) (s ∷ ss) d d' u h =
      let (mid, before, last) = run-append (rev ss) s d d' h in
      let step = db.dropped v s mid d' (ground arith) last in
      rw (step, ◌>>=◌) (run_back us ss d mid (ground arith) before)

  down-up :
      (m : Migration) (d d' : db.Catalog)
      → IsMirror m
      → run db m.up d ≡ some d'
      → run db m.down d' ≡ some d
  unfolding IsMirror
  down-up m d d' (twice, mirror) h = run_back m.down (rev m.up) d d' mirror (rw twice h)

  revert-migrate :
      (ms : List Migration) (d d' : db.Catalog)
      → All IsMirror ms
      → migrate db ms d ≡ some d'
      → revert db ms d' ≡ some d
  unfolding migrate revert
  revert-migrate [] d d' mirrors h = ground arith
  revert-migrate (m ∷ ms) d d' mirrors h = elim (Option-cases (run db m.up d)) [
    | inl refused ↦ absurd (ground arith)
    | inr (mid, fine) ↦
        let later = revert-migrate ms mid d' mirrors.1 (ground arith) in
        rw (later, ◌>>=◌) (down-up m d mid mirrors.0 fine)
  ]

-- The services with a database of their own that TypeORM migrates.
pub data Owner : Type 0 where
  order_api inventory audit analytics notification : Owner

-- The migrations of a service, the oldest first.
unfoldable pub migrations : Owner → List Migration
migrations order_api =
    record { up = init_order_api_schema_up; down = init_order_api_schema_down }
    ∷ record { up = add_outbox_and_trace_id_up; down = add_outbox_and_trace_id_down }
    ∷ []
migrations inventory =
    record { up = init_inventory_schema_up; down = init_inventory_schema_down } ∷ []
migrations audit = record { up = init_audit_schema_up; down = init_audit_schema_down } ∷ []
migrations analytics =
    record { up = init_analytics_schema_up; down = init_analytics_schema_down } ∷ []
migrations notification =
    record { up = init_notification_schema_up; down = init_notification_schema_down } ∷ []

migrations-AreMirrors : (o : Owner) → All IsMirror (migrations o)
unfolding migrations IsMirror rev undo_each undoes init_order_api_schema_up
    init_order_api_schema_down add_outbox_and_trace_id_up add_outbox_and_trace_id_down
    init_inventory_schema_up init_inventory_schema_down init_audit_schema_up init_audit_schema_down
    init_analytics_schema_up init_analytics_schema_down init_notification_schema_up
    init_notification_schema_down
migrations-AreMirrors order_api = ((refl, refl), ((refl, refl), tt))
migrations-AreMirrors inventory = ((refl, refl), tt)
migrations-AreMirrors audit = ((refl, refl), tt)
migrations-AreMirrors analytics = ((refl, refl), tt)
migrations-AreMirrors notification = ((refl, refl), tt)

-- Of each of the five services with migrations, and with a database that runs all of them and in
-- which to drop what was just made leads back to the catalog before, to revert them, the latest
-- first, succeeds and leads back to the catalog that was there before.
pub revert_lem :
    (db : Database) (o : Owner) (d d' : db.Catalog)
    → migrate db (migrations o) d ≡ some d'
    → revert db (migrations o) d' ≡ some d
revert_lem db o d d' h = revert-migrate db (migrations o) d d' (migrations-AreMirrors o) h
