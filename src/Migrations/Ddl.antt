-- ===== src/Migrations/Ddl.antt =====
-- The statements that the migrations hand to `queryRunner.query`, and the database that runs them.
use logistics_order_fulfillm.Prelude.{
  Bool, List, Option, String, [], false, some, true, ◌&&◌, ◌==◌, ◌>>=◌, ◌∷◌, ◌≡◌,
}

-- A column: its name, its type, whether it is NOT NULL, and its default.
pub data Column : Type 0 where
  column : String → String → Bool → Option String → Column

-- A constraint of CREATE TABLE: its name, and its columns or its condition.
pub data Constraint : Type 0 where
  unique primary_key : String → List String → Constraint
  check : String → String → Constraint

-- Each names its schema first, then its table. An index has columns and a condition; a foreign key
-- has its name, its column, the table and the column that it refers to, and what it does on delete.
pub data Statement : Type 0 where
  create_table : String → String → List Column → List Constraint → Statement
  drop_table : String → String → Statement
  create_index : String → String → String → List String → Option String → Statement
  drop_index : String → String → Statement
  add_foreign_key : String → String → String → String → String → String → String → Statement
  drop_constraint : String → String → String → Statement
  add_column : String → String → Column → Statement
  drop_column : String → String → String → Statement

name_of : Column → String
name_of (column name type not_null default) = name

-- The first statement drops what the second one made.
unfoldable pub undoes : Statement → Statement → Bool
unfolding name_of
undoes (drop_table schema table) (create_table schema' table' columns constraints) =
    schema == schema' && table == table'
undoes (drop_index schema name) (create_index schema' name' table columns condition) =
    schema == schema' && name == name'
undoes (drop_constraint schema table name) (add_foreign_key schema' table' name' c t c' d) =
    schema == schema' && table == table' && name == name'
undoes (drop_column schema table name) (add_column schema' table' c) =
    schema == schema' && table == table' && name == name_of c
undoes _ _ = false

-- A database that runs such statements, or refuses one. To drop what was just made leads back to the
-- tables, indexes, columns and constraints that were there before.
pub record Database : Type 1 where
  pub Catalog : Type 0
  pub query : Statement → Catalog → Option Catalog
  pub dropped :
      (drop made : Statement) (before after : Catalog)
      → undoes drop made ≡ true
      → query made before ≡ some after
      → query drop after ≡ some before

pub record Migration : Type 0 where
  pub up : List Statement
  pub down : List Statement

module _ (db : Database) where
  -- The queries of one method, one after the other; an error ends it.
  unfoldable pub run : List Statement → db.Catalog → Option db.Catalog
  run [] catalog = some catalog
  run (s ∷ ss) catalog = db.query s catalog >>= run ss

  -- `migration:run`: each migration that was not run, the oldest first.
  unfoldable pub migrate : List Migration → db.Catalog → Option db.Catalog
  migrate [] catalog = some catalog
  migrate (m ∷ ms) catalog = run m.up catalog >>= migrate ms

  -- `migration:revert` as often, the latest first.
  unfoldable pub revert : List Migration → db.Catalog → Option db.Catalog
  revert [] catalog = some catalog
  revert (m ∷ ms) catalog = revert ms catalog >>= run m.down
