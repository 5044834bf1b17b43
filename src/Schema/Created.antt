-- ===== src/Schema/Created.antt =====
-- `create_schema` of src/a2a_hub/registry.py and of src/a2a_hub/marks.py: tables that are not there are
-- created, and those that are there are brought up to date, once in the life of the process.
use a2a_hub.Prelude.{
  ◌≡◌, refl, ap, ◌∙◌, inl, inr, Bool, true, false, Bool-cases, Option, none, some, Option-cases,
  List, [], ◌∷◌, if◌then◌else◌,
}
use a2a_hub.Prelude.Text.{Str}
use a2a_hub.Schema.{
  Column, Table, Database, columns_of, Problem, Run, add_missing_columns, alter_all,
}
use a2a_hub.Schema.Complete.{model_of, IsDistinct, succeeds, migrated, add_missing_columns_complete}
use a2a_hub.Schema.Again.{has_all, has_all-missing}

-- `self._ready` beside the database
pub record Opened : Type 0 where
  pub ready : Bool
  pub database : Database

abbrev pub names : List Column → List Str
names [] = []
names (column ∷ columns) = column.name ∷ names columns

-- what `create_all` leaves of a table: it creates one that is not there, and no more
abbrev pub created : Option Table → Option (List Str) → Option (List Str)
created model (some existing) = some existing
created none none = none
created (some table) none = some (names table.columns)

-- SQLAlchemy's `create_all` for these models, and what is left of the statements of a transaction
-- that an exception ended.
pub record Engine (tables : List Table) : Type 0 where
  pub create_all : Database → Database
  pub after_error : Database → Database → Database
  pub creates :
      (name : Str) (database : Database)
      → columns_of name (create_all database)
        ≡ created (model_of name tables) (columns_of name database)

module _ (tables : List Table) (engine : Engine tables) where
  -- after the statements of a run
  abbrev migrate : Database → Run → Option Problem × Opened
  migrate before run = elim run.error [
    | none ↦ (
      none,
      record { ready = true; database = alter_all run.executed (engine.create_all before) },
    )
    | some problem ↦ (
      some problem,
      record {
        ready = false;
        database = engine.after_error before (alter_all run.executed (engine.create_all before));
      },
    )
  ]

  -- what it raises, if it does
  unfoldable pub create_schema : Opened → Option Problem × Opened
  create_schema store =
      if store.ready
      then (none, store)
      else migrate store.database (add_missing_columns tables (engine.create_all store.database))

-- Every table of the models is there with all the columns of its model.
abbrev pub IsComplete : List Table → Database → Type 0
IsComplete tables database =
    (name : Str) (table : Table)
    → model_of name tables ≡ some table
    → (columns : List Str) × (columns_of name database ≡ some columns)
      × (has_all columns table.columns ≡ true)

abbrev pub IsKept : List Table → Opened → Type 0
IsKept tables store = store.ready ≡ true → IsComplete tables store.database

module _ (tables : List Table) (engine : Engine tables) (distinct : IsDistinct tables) where
  migrated-there :
      (table : Table) (o : Option (List Str))
      → (columns : List Str) × (migrated (some table) (created (some table) o) ≡ some columns)
        × (has_all columns table.columns ≡ true)
  migrated-there table none = (_, refl, has_all-missing (names table.columns) table.columns)
  migrated-there table (some existing) = (_, refl, has_all-missing existing table.columns)

  migrate-IsComplete :
      (before : Database)
      → succeeds (add_missing_columns tables (engine.create_all before)).error ≡ true
      → IsComplete tables (
          alter_all
            (add_missing_columns tables (engine.create_all before)).executed
            (engine.create_all before))
  migrate-IsComplete before done name table here =
      let (columns, there, all_there) = migrated-there table (columns_of name before) in
      (
        columns,
        add_missing_columns_complete tables (engine.create_all before) name distinct done
            ∙ ap (λ m. migrated m (columns_of name (engine.create_all before))) here
            ∙ ap (migrated (some table)) (engine.creates name before)
            ∙ ap (λ m. migrated (some table) (created m (columns_of name before))) here
            ∙ there,
        all_there,
      )

  -- If the models are of different tables, create_all creates the tables that are not there and
  -- changes no other, and the ready flag is set only while the tables are complete, then after a
  -- create_schema that raises nothing every table of the models is there with all columns of its
  -- model, and the flag is set.
  pub create_schema-IsComplete :
      (store : Opened)
      → IsKept tables store
      → (create_schema tables engine store).0 ≡ none
      → IsComplete tables (create_schema tables engine store).1.database
        × ((create_schema tables engine store).1.ready ≡ true)
  unfolding create_schema
  create_schema-IsComplete store kept done = elim (Bool-cases store.ready) [
    | inl ready ↦ rw (create_schema, ready) (kept ready, refl)
    | inr new ↦
        elim (Option-cases (add_missing_columns tables (engine.create_all store.database)).error) [
          | inl fine ↦
              rw (create_schema, new, fine) (migrate-IsComplete store.database (rw fine refl), refl)
          | inr (column, error) ↦ absurd (cc (rw (create_schema, new, error) at done))
        ]
  ]
