-- ===== src/Schema/Altered.antt =====
-- What statements do to the columns of a table.
use a2a_hub.Prelude.{
  append_assoc, append-nil, ◌≡◌, refl, sym, ap, inl, inr, Option, none, some, List, [], ◌∷◌, ◌++◌,
  arith, Bool-cases, if◌then◌else◌,
}
use a2a_hub.Prelude.Text.{Str, ◌==◌, eq_iff}
use a2a_hub.Schema.{Database, Alter, columns_of, alter_table, alter_all}

-- the names that statements add to a table
unfoldable pub added_to : Str → List Alter → List Str
added_to name [] = []
added_to name (alter ∷ alters) =
    let later = added_to name alters in
    if alter.table == name then alter.column.name ∷ later else later

abbrev pub longer : List Str → Option (List Str) → Option (List Str)
longer names none = none
longer names (some columns) = some (columns ++ names)

columns_of-alter_table :
    (alter : Alter) (name : Str) (database : Database)
    → columns_of name (alter_table alter database) ≡ (
        if alter.table == name
        then longer (alter.column.name ∷ []) (columns_of name database)
        else columns_of name database)
unfolding columns_of alter_table
columns_of-alter_table alter name [] = ground arith
columns_of-alter_table alter name (table ∷ tables) = ground (
  arith,
  columns_of-alter_table alter name tables,
  eq_iff table.name alter.table,
  eq_iff table.name name,
  eq_iff alter.table name,
)

longer-longer : (a b : List Str) (o : Option (List Str)) → longer b (longer a o) ≡ longer (a ++ b) o
longer-longer a b none = refl
longer-longer a b (some columns) = ap some (append_assoc columns a b)

longer-nil : (o : Option (List Str)) → longer [] o ≡ o
longer-nil none = refl
longer-nil (some columns) = ap some (append-nil columns)

-- Statements add their columns at the end of their table, in order, and do nothing else.
pub columns_of-alter_all :
    (alters : List Alter) (name : Str) (database : Database)
    → columns_of name (alter_all alters database)
      ≡ longer (added_to name alters) (columns_of name database)
unfolding alter_all added_to
columns_of-alter_all [] name database = sym (longer-nil (columns_of name database))
columns_of-alter_all (alter ∷ alters) name database = elim (Bool-cases (alter.table == name)) [
  | inl same ↦
      rw
        (
          columns_of-alter_all alters name (alter_table alter database),
          columns_of-alter_table alter name database,
          same,
        )
        (longer-longer (alter.column.name ∷ []) (added_to name alters) (columns_of name database))
  | inr other ↦
      rw
        (
          columns_of-alter_all alters name (alter_table alter database),
          columns_of-alter_table alter name database,
          other,
        )
        refl
]
