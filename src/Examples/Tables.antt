-- ===== src/Examples/Tables.antt =====
-- A start on a database of an older version, with an engine for one table.
use a2a_hub.Prelude.{
  ◌≡◌, refl, sym, ap, ◌∙◌, inl, inr, true, false, Bool-cases, Option, none, some, Option-cases,
  List, [], ◌∷◌,
}
use a2a_hub.Prelude.Text.{Str, ◌==◌, eq_iff, mem}
use a2a_hub.Schema.{Database, Existing, columns_of, add_columns, add_missing_columns}
use a2a_hub.Schema.Complete.{model_of}
use a2a_hub.Schema.Created.{
  Opened, names, created, Engine, create_schema, IsComplete, create_schema-IsComplete,
}
use a2a_hub.Examples.Starting.{registrations, old_database, one_table}

abbrev new_table : Existing
new_table = record { name = registrations.name; columns = names registrations.columns }

abbrev with_table : Database → Option (List Str) → Database
with_table database none = new_table ∷ database
with_table database (some columns) = database

abbrev create_all : Database → Database
create_all database = with_table database (columns_of registrations.name database)

creates :
    (name : Str) (database : Database)
    → columns_of name (create_all database)
      ≡ created (model_of name (registrations ∷ [])) (columns_of name database)
unfolding columns_of model_of
creates name database = elim (Option-cases (columns_of registrations.name database)) [
  | inl absent ↦ elim (Bool-cases (registrations.name == name)) [
    | inl same ↦
        let e =
          ap (λ n. columns_of n database) (sym ((eq_iff registrations.name name).0 same))
          ∙ absent in
        rw (absent, columns_of, model_of, same, e) refl
    | inr other ↦ rw (absent, columns_of, model_of, other) (created_none (columns_of name database))
  ]
  | inr (columns, there) ↦ elim (Bool-cases (registrations.name == name)) [
    | inl same ↦
        let e =
          ap (λ n. columns_of n database) (sym ((eq_iff registrations.name name).0 same)) ∙ there in
        rw (there, e) refl
    | inr other ↦ rw (there, model_of, other) (created_none (columns_of name database))
  ]
]
  where
    created_none : (o : Option (List Str)) → o ≡ created none o
    created_none none = refl
    created_none (some columns) = refl

abbrev engine : Engine (registrations ∷ [])
engine = record { create_all = create_all; after_error = λ before after. before; creates = creates }

abbrev starting : Opened
starting = record { ready = false; database = old_database }

starts : (create_schema (registrations ∷ []) engine starting).0 ≡ none
unfolding create_schema add_missing_columns columns_of add_columns ◌==◌ mem
starts = refl

create_schema-IsComplete_example :
    IsComplete (registrations ∷ []) (create_schema (registrations ∷ []) engine starting).1.database
    × ((create_schema (registrations ∷ []) engine starting).1.ready ≡ true)
create_schema-IsComplete_example =
    create_schema-IsComplete (registrations ∷ []) engine one_table starting (λ h. cc h) starts
