-- ===== src/Schema.antt =====
-- src/a2a_hub/schema.py: `add_missing_columns`. A table of the models and one of the database are a
-- name with columns; the database's tables are in a list, each name once. The statements that the
-- loop executes are what it does to the database.
pub mod Altered
pub mod Complete
pub mod Again
pub mod Created
use a2a_hub.Prelude.{
  Bool, true, false, not, ◌&&◌, Option, none, some, List, [], ◌∷◌, ◌++◌, if◌then◌else◌,
}
use a2a_hub.Prelude.Text.{Str, codes, ◌==◌, mem}

-- The default of the server: none, a `text()`, or a plain `str`, which has no attribute `text`.
pub data ServerDefault : Type 0 where
  no_default : ServerDefault
  text_clause plain_text : Str → ServerDefault

-- `ddl` is the type as the dialect writes it
pub record Column : Type 0 where
  pub name : Str
  pub nullable : Bool
  pub server_default : ServerDefault
  pub ddl : Str

pub record Table : Type 0 where
  pub name : Str
  pub columns : List Column

-- the names of a table's columns
pub record Existing : Type 0 where
  pub name : Str
  pub columns : List Str

abbrev pub Database : Type 0
Database = List Existing

-- The statement, as `ALTER TABLE t ADD COLUMN c ddl DEFAULT d`.
pub record Alter : Type 0 where
  pub table : Str
  pub column : Column
  pub default : Str

-- what is printed into the statement; `none` is the `AttributeError` of `arg.text`
abbrev pub default_text : ServerDefault → Option Str
default_text no_default = some []
default_text (text_clause text) = some (codes " DEFAULT " ++ text)
default_text (plain_text text) = none

abbrev pub statement_text : Alter → Str
statement_text alter =
    codes "ALTER TABLE "
    ++ alter.table
    ++ codes " ADD COLUMN "
    ++ alter.column.name
    ++ codes " "
    ++ alter.column.ddl
    ++ alter.default

-- `inspector.get_columns(name)`, and none where there is no such table
unfoldable pub columns_of : Str → Database → Option (List Str)
columns_of name [] = none
columns_of name (table ∷ tables) =
    if table.name == name then some table.columns else columns_of name tables

-- `not column.nullable and column.server_default is None`
abbrev pub is_required : Column → Bool
is_required column = elim column.server_default [
  | no_default ↦ not column.nullable
  | text_clause text ↦ false
  | plain_text text ↦ false
]

-- What is raised for a column of a table: the `RuntimeError`, or the `AttributeError`.
pub data Problem : Type 0 where
  required_column no_text : (table column : Str) → Problem

-- The statements executed so far, and what is raised, if anything.
pub record Run : Type 0 where
  pub executed : List Alter
  pub error : Option Problem

abbrev pub failed_run : Problem → Run
failed_run problem = record { executed = []; error = some problem }

abbrev pub then_run : Alter → Run → Run
then_run alter run = record run { executed = alter ∷ run.executed }

-- the statement for a column, or the exception of its default
abbrev pub add_column : Str → Column → Option Str → Run → Run
add_column table column none later = failed_run (no_text table column.name)
add_column table column (some default) later =
    then_run (record { table = table; column = column; default = default }) later

-- the loop over the columns of a table, and what follows it
unfoldable pub add_columns : Str → List Str → List Column → Run → Run
add_columns table existing [] later = later
add_columns table existing (column ∷ columns) later =
    let rest = add_columns table existing columns later in
    if mem column.name existing
    then rest
    else if is_required column
    then failed_run (required_column table column.name)
    else add_column table column (default_text column.server_default) rest

abbrev pub add_to_table : Table → Run → Option (List Str) → Run
add_to_table table later none = later
add_to_table table later (some existing) = add_columns table.name existing table.columns later

-- the loop over the tables
unfoldable pub add_missing_columns : List Table → Database → Run
add_missing_columns [] database = record { executed = []; error = none }
add_missing_columns (table ∷ tables) database =
    add_to_table table (add_missing_columns tables database) (columns_of table.name database)

-- what the database makes of a statement
unfoldable pub alter_table : Alter → Database → Database
alter_table alter [] = []
alter_table alter (table ∷ tables) =
    let later = alter_table alter tables in
    if table.name == alter.table
    then record table { columns = table.columns ++ alter.column.name ∷ [] } ∷ tables
    else table ∷ later

unfoldable pub alter_all : List Alter → Database → Database
alter_all [] database = database
alter_all (alter ∷ alters) database = alter_all alters (alter_table alter database)
