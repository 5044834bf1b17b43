-- ===== src/Schema/Again.antt =====
-- A second start finds nothing left to migrate.
use a2a_hub.Prelude.{
  ◌≡◌, refl, Bool, true, ◌||◌, Option, none, some, List, [], ◌∷◌, ◌++◌, arith, all, All,
}
use a2a_hub.Prelude.Text.{Str, eq_iff, eq_refl, mem}
use a2a_hub.Schema.{
  Column, Table, Database, columns_of, Run, add_columns, add_to_table, add_missing_columns,
  alter_all,
}
use a2a_hub.Schema.Complete.{
  missing, model_of, IsDistinct, succeeds, migrated, add_missing_columns_complete,
}

abbrev pub nothing_to_do : Run
nothing_to_do = record { executed = []; error = none }

mem-append : (name : Str) (xs ys : List Str) → mem name (xs ++ ys) ≡ mem name xs || mem name ys
unfolding mem
mem-append name [] ys = refl
mem-append name (x ∷ xs) ys = ground (arith, mem-append name xs ys)

abbrev pub has_all : List Str → List Column → Bool
has_all existing columns = all (λ column. mem column.name existing) columns

add_columns-there :
    (table : Str) (existing : List Str) (columns : List Column) (later : Run)
    → has_all existing columns ≡ true
    → add_columns table existing columns later ≡ later
unfolding add_columns
add_columns-there table existing [] later h = refl
add_columns-there table existing (column ∷ columns) later h =
    ground (arith, h, add_columns-there table existing columns later)

-- more columns lose none
has_all-cons :
    (existing more : List Str) (columns : List Column) (name : Str)
    → has_all (existing ++ more) columns ≡ true
    → has_all (existing ++ name ∷ more) columns ≡ true
unfolding mem
has_all-cons existing more [] name h = refl
has_all-cons existing more (column ∷ columns) name h = ground (
  arith,
  h,
  mem-append column.name existing more,
  mem-append column.name existing (name ∷ more),
  has_all-cons existing more columns name,
)

pub has_all-missing :
    (existing : List Str) (columns : List Column)
    → has_all (existing ++ missing existing columns) columns ≡ true
unfolding mem
has_all-missing existing [] = refl
has_all-missing existing (column ∷ columns) = ground (
  arith,
  eq_refl column.name,
  has_all-missing existing columns,
  has_all-cons existing (missing existing columns) columns column.name,
  mem-append column.name existing (missing existing columns),
  mem-append column.name existing (column.name ∷ missing existing columns),
)

-- each of these is the model of its table
abbrev AllModels : List Table → List Table → Type 0
AllModels tables = All (λ table. model_of table.name tables ≡ some table)

AllModels-cons :
    (table : Table) (tables rest : List Table)
    → model_of table.name rest ≡ none
    → AllModels tables rest
    → AllModels (table ∷ tables) rest
unfolding model_of
AllModels-cons table tables [] absent h = tt
AllModels-cons table tables (other ∷ rest) absent (first, h) = (
  ground (arith, eq_iff other.name table.name, eq_iff table.name other.name, first, absent),
  AllModels-cons table tables rest (ground (arith, absent)) h,
)

IsDistinct-AllModels : (tables : List Table) → IsDistinct tables → AllModels tables tables
unfolding model_of
IsDistinct-AllModels [] distinct = tt
IsDistinct-AllModels (table ∷ tables) (once, distinct) = (
  rw (eq_refl table.name) refl,
  AllModels-cons table tables tables once (IsDistinct-AllModels tables distinct),
)

add_to_table-migrated :
    (table : Table) (existing : Option (List Str)) (later : Run)
    → add_to_table table later (migrated (some table) existing) ≡ later
add_to_table-migrated table none later = refl
add_to_table-migrated table (some existing) later =
    add_columns-there table.name _ table.columns later (has_all-missing existing table.columns)

module _ (tables : List Table) (database : Database) (distinct : IsDistinct tables)
    (done : succeeds (add_missing_columns tables database).error ≡ true) where
  abbrev after : Database
  after = alter_all (add_missing_columns tables database).executed database

  rest_done :
      (rest : List Table) → AllModels tables rest → add_missing_columns rest after ≡ nothing_to_do
  unfolding add_missing_columns
  rest_done [] h = refl
  rest_done (table ∷ rest) (first, h) =
      rw
        (
          rest_done rest h,
          add_missing_columns_complete tables database table.name distinct done,
          first,
        )
        (add_to_table-migrated table (columns_of table.name database) nothing_to_do)

  -- If the models are of different tables and the migration raises nothing, then a second
  -- migration, of the database that the first leaves, executes no statement and raises nothing.
  pub add_missing_columns_again : add_missing_columns tables after ≡ nothing_to_do
  add_missing_columns_again = rest_done tables (IsDistinct-AllModels tables distinct)
