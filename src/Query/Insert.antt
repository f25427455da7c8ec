-- ===== src/Query/Insert.antt =====
-- `normalize_insert_input`, `normalize_named_insert` and `validate_row_types` of query/mod.rs.
pub mod Assigned
pub mod Encodes
pub mod Ordered
use rs_redbase.Prelude.{
  ℕ, Bool, true, false, not, Option, none, some, List, [], ◌∷◌, ◌==◌, length, if◌then◌else◌, Result,
  ok, err, ok_or, ◌>>=◌, ◌>>◌,
}
use rs_redbase.Prelude.Bytes.{eq_bytes}
use rs_redbase.Prelude.Text.{Text, contains}
use rs_redbase.Table.Types.{ColumnSchema, TableSchema, Value}
use rs_redbase.Query.Types.{
  QueryError, duplicate_request_column, missing_request_column, value_count_mismatch,
  value_type_mismatch, NamedValue, InsertInput,
}
use rs_redbase.Query.Columns.{require_column, value_matches_type, column_type_name, value_type_name}

-- The loop over the columns zipped with the values.
unfoldable pub validate_types : Text → List ColumnSchema → List Value → Result QueryError (Unit {0})
validate_types table [] values = ok tt
validate_types table (c ∷ cs) [] = ok tt
validate_types table (c ∷ cs) (v ∷ vs) =
    if value_matches_type c.column_type v
    then validate_types table cs vs
    else err (value_type_mismatch table c.name (column_type_name c.column_type) (value_type_name v))

unfoldable pub validate_row_types : Text → TableSchema → List Value → Result QueryError (Unit {0})
validate_row_types table schema values =
    if not (length values == length schema.columns)
    then err (value_count_mismatch table (length schema.columns) (length values))
    else validate_types table schema.columns values

-- The first loop: every entry names a column of the table, and none twice. What it gathers in
-- `values_by_column` are the entries.
unfoldable pub gather :
    Text → TableSchema → List NamedValue → List Text → Result QueryError (Unit {0})
gather table schema [] seen = ok tt
gather table schema (entry ∷ entries) seen = do
  require_column schema table entry.column
  if contains seen entry.column
      then err (duplicate_request_column table entry.column)
      else gather table schema entries (entry.column ∷ seen)

-- `values_by_column.remove(name)`: the value, and the map without it.
unfoldable pub remove_value : List NamedValue → Text → Option (Value × List NamedValue)
remove_value [] name = none
remove_value (entry ∷ entries) name =
    if eq_bytes entry.column name
    then some (entry.value, entries)
    else elim (remove_value entries name) [ none ↦ none | some (v, rest) ↦ some (v, entry ∷ rest) ]

-- The second loop: the values in the order of the table's columns.
unfoldable pub order_values :
    Text → List ColumnSchema → List NamedValue → Result QueryError (List Value)
order_values table [] values_by_column = ok []
order_values table (c ∷ cs) values_by_column = do
  (value, rest) ← ok_or (remove_value values_by_column c.name) (missing_request_column table c.name)
  if not (value_matches_type c.column_type value)
      then err (
          value_type_mismatch table c.name (column_type_name c.column_type) (value_type_name value))
      else do ordered ← order_values table cs rest; ok (value ∷ ordered)

unfoldable pub normalize_named_insert :
    Text → TableSchema → List NamedValue → Result QueryError (List Value)
normalize_named_insert table schema entries = do
  gather table schema entries []
  order_values table schema.columns entries

unfoldable pub normalize_insert_input :
    Text → TableSchema → InsertInput → Result QueryError (List Value)
normalize_insert_input table schema (InsertInput.full_row values) = do
  validate_row_types table schema values
  ok values
normalize_insert_input table schema (InsertInput.named entries) =
    normalize_named_insert table schema entries
