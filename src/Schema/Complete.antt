-- ===== src/Schema/Complete.antt =====
-- What the migration leaves behind.
use a2a_hub.Prelude.{
  Option-cases, append-nil, ◌≡◌, refl, sym, ap, ◌∙◌, inl, inr, Bool, true, false, ◌&&◌, ◌||◌,
  Option, none, some, List, [], ◌∷◌, ◌++◌, arith, Bool-cases, all, if◌then◌else◌,
}
use a2a_hub.Prelude.Text.{Str, ◌==◌, eq_iff, mem}
use a2a_hub.Schema.{
  Column, no_default, text_clause, plain_text, Table, Database, columns_of, Problem, Run,
  add_columns, add_to_table, add_missing_columns, alter_all,
}
use a2a_hub.Schema.Altered.{added_to, columns_of-alter_all}

-- the names of the columns that are missing
abbrev pub missing : List Str → List Column → List Str
missing existing [] = []
missing existing (column ∷ columns) =
    let later = missing existing columns in
    if mem column.name existing then later else column.name ∷ later

-- the model of a table
unfoldable pub model_of : Str → List Table → Option Table
model_of name [] = none
model_of name (table ∷ tables) = if table.name == name then some table else model_of name tables

-- No two models are of one table.
abbrev pub IsDistinct : List Table → Type 0
IsDistinct [] = Unit
IsDistinct (table ∷ tables) = (model_of table.name tables ≡ none) × IsDistinct tables

abbrev pub succeeds : Option Problem → Bool
succeeds none = true
succeeds (some problem) = false

-- a column that can be added to a table with rows, by a statement that can be written
abbrev pub is_addable : Column → Bool
is_addable column = elim column.server_default [
  | no_default ↦ column.nullable
  | text_clause text ↦ true
  | plain_text text ↦ false
]

abbrev pub fits : List Str → Column → Bool
fits existing column = mem column.name existing || is_addable column

abbrev pub fits_in : Table → Option (List Str) → Bool
fits_in table none = true
fits_in table (some existing) = all (fits existing) table.columns

-- Every column that the table lacks can be added to it.
abbrev pub fits_table : Database → Table → Bool
fits_table database table = fits_in table (columns_of table.name database)

add_columns-succeeds :
    (table : Str) (existing : List Str) (columns : List Column) (later : Run)
    → succeeds (add_columns table existing columns later).error
      ≡ all (fits existing) columns && succeeds later.error
unfolding add_columns
add_columns-succeeds table existing [] later = refl
add_columns-succeeds table existing (column ∷ columns) later =
    ground (arith, add_columns-succeeds table existing columns later)

add_to_table-succeeds :
    (table : Table) (later : Run) (existing : Option (List Str))
    → succeeds (add_to_table table later existing).error
      ≡ fits_in table existing && succeeds later.error
add_to_table-succeeds table later none = refl
add_to_table-succeeds table later (some existing) =
    add_columns-succeeds table.name existing table.columns later

-- The migration raises nothing exactly if every column that a table of the database lacks has a
-- default of the server that is a text clause, or has none and is nullable.
pub succeeds-add_missing_columns :
    (tables : List Table) (database : Database)
    → succeeds (add_missing_columns tables database).error ≡ all (fits_table database) tables
unfolding add_missing_columns
succeeds-add_missing_columns [] database = refl
succeeds-add_missing_columns (table ∷ tables) database =
    add_to_table-succeeds table (add_missing_columns tables database)
      (columns_of table.name database)
    ∙ ap (◌&&◌ (fits_table database table)) (succeeds-add_missing_columns tables database)

added_to-add_columns :
    (table : Str) (existing : List Str) (columns : List Column) (later : Run) (name : Str)
    → succeeds (add_columns table existing columns later).error ≡ true
    → added_to name (add_columns table existing columns later).executed
      ≡ (if table == name then missing existing columns else []) ++ added_to name later.executed
unfolding add_columns added_to
added_to-add_columns table existing [] later name h = ground arith
added_to-add_columns table existing (column ∷ columns) later name h =
    ground (arith, h, added_to-add_columns table existing columns later name)

-- what a table's model lacks in it
abbrev pub lacking : List Str → Option Table → List Str
lacking existing none = []
lacking existing (some table) = missing existing table.columns

-- a table of the database after the migration
abbrev pub migrated : Option Table → Option (List Str) → Option (List Str)
migrated model none = none
migrated model (some existing) = some (existing ++ lacking existing model)

abbrev missing_in : Table → Option (List Str) → List Str
missing_in table none = []
missing_in table (some existing) = missing existing table.columns

added_to-add_to_table :
    (table : Table) (later : Run) (existing : Option (List Str)) (name : Str)
    → succeeds (add_to_table table later existing).error ≡ true
    → added_to name (add_to_table table later existing).executed
      ≡ (if table.name == name then missing_in table existing else [])
        ++ added_to name later.executed
added_to-add_to_table table later none name h = ground arith
added_to-add_to_table table later (some existing) name h =
    added_to-add_columns table.name existing table.columns later name h

later_succeeds :
    (table : Table) (later : Run) (existing : Option (List Str))
    → succeeds (add_to_table table later existing).error ≡ true
    → succeeds later.error ≡ true
later_succeeds table later existing h =
    ground (arith, add_to_table-succeeds table later existing, h)

added_to-missing_table :
    (name : Str) (tables : List Table) (database : Database)
    → succeeds (add_missing_columns tables database).error ≡ true
    → model_of name tables ≡ none
    → added_to name (add_missing_columns tables database).executed ≡ []
unfolding add_missing_columns model_of
added_to-missing_table name [] database h e = unfold added_to in refl
added_to-missing_table name (table ∷ tables) database h e =
    let run = add_missing_columns tables database in
    let other : (table.name == name) ≡ false = ground (arith, e) in
    let rest : model_of name tables ≡ none = ground (arith, e) in
    rw (added_to-add_to_table table run (columns_of table.name database) name h, other)
      (added_to-missing_table name tables database (later_succeeds table run _ h) rest)

module _ (name : Str) (existing : List Str) (database : Database)
    (there : columns_of name database ≡ some existing) where
  added_to-lacking :
      (tables : List Table)
      → IsDistinct tables
      → succeeds (add_missing_columns tables database).error ≡ true
      → added_to name (add_missing_columns tables database).executed
        ≡ lacking existing (model_of name tables)
  unfolding add_missing_columns model_of
  added_to-lacking [] distinct h = unfold added_to in refl
  added_to-lacking (table ∷ tables) (once, distinct) h =
      let run = add_missing_columns tables database in
      let done = later_succeeds table run _ h in
      rw (added_to-add_to_table table run (columns_of table.name database) name h)
        (elim (Bool-cases (table.name == name)) [
          | inl same ↦
              let e = (eq_iff table.name name).0 same in
              rw
                (
                  same,
                  added_to-missing_table name tables database done
                      (ap (λ n. model_of n tables) (sym e) ∙ once),
                  ap (λ n. columns_of n database) e ∙ there,
                )
                (append-nil (missing existing table.columns))
          | inr other ↦ rw other (added_to-lacking tables distinct done)
        ])

-- If the models are of different tables and the migration raises nothing, then after its statements
-- each table of the database has the columns it had and behind them those of its model that it
-- lacked, and a table that was not there is not there.
pub add_missing_columns_complete :
    (tables : List Table) (database : Database) (name : Str)
    → IsDistinct tables
    → succeeds (add_missing_columns tables database).error ≡ true
    → columns_of name (alter_all (add_missing_columns tables database).executed database)
      ≡ migrated (model_of name tables) (columns_of name database)
add_missing_columns_complete tables database name distinct done =
    columns_of-alter_all (add_missing_columns tables database).executed name database
    ∙ elim (Option-cases (columns_of name database)) [
      | inl absent ↦ rw absent refl
      | inr (existing, there) ↦
          rw (there, added_to-lacking name existing database there tables distinct done) refl
    ]
