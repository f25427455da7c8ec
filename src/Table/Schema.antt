-- ===== src/Table/Schema.antt =====
-- `SchemaLayout`, `validate_identifier` and `compile_schema` of table/mod.rs.
pub mod Offsets
use rs_redbase.Prelude.{
  ℕ, ◌+◌, Bool, true, false, not, ◌&&◌, ◌||◌, Option, none, some, List, [], ◌∷◌, suc, ltb, leb,
  ◌==◌, if◌then◌else◌, Result, ok, err, ok_or, ◌>>=◌, ◌>>◌,
}
use rs_redbase.Prelude.Bytes.{eq_bytes}
use rs_redbase.Prelude.Text.{Text, contains}
use rs_redbase.Storage.{checked_add}
use rs_redbase.Table.Types.{
  ColumnType, fixed_len, ColumnSchema, TableSchema, TableError, invalid_name, invalid_schema,
  duplicate_column, column_not_found,
}

pub record LayoutColumn : Type 0 where
  pub name : Text
  pub column_type : ColumnType
  pub offset : ℕ

pub record SchemaLayout : Type 0 where
  pub columns : List LayoutColumn
  pub record_size : ℕ

unfoldable pub find_column : List LayoutColumn → Text → Option LayoutColumn
find_column [] name = none
find_column (c ∷ cs) name = if eq_bytes c.name name then some c else find_column cs name

unfoldable pub position : List LayoutColumn → Text → Option ℕ
position [] name = none
position (c ∷ cs) name =
    if eq_bytes c.name name
    then some 0
    else elim (position cs name) [ none ↦ none | some i ↦ some (suc i) ]

-- `SchemaLayout::column`.
unfoldable pub column : SchemaLayout → Text → Result TableError LayoutColumn
unfolding find_column
column layout name = ok_or (find_column layout.columns name) (column_not_found name)

-- `SchemaLayout::column_index`.
unfoldable pub column_index : SchemaLayout → Text → Result TableError ℕ
unfolding position
column_index layout name = ok_or (position layout.columns name) (column_not_found name)

abbrev pub is_identifier_byte : ℕ → Bool
is_identifier_byte b =
    leb b'0' b && leb b b'9' || leb b'A' b && leb b b'Z' || leb b'a' b && leb b b'z' || b == b'_'

abbrev pub all_identifier_bytes : Text → Bool
all_identifier_bytes [] = true
all_identifier_bytes (b ∷ bs) = is_identifier_byte b && all_identifier_bytes bs

abbrev pub is_empty {ℓ} : {A : Type ℓ} → List A → Bool
is_empty [] = true
is_empty (x ∷ xs) = false

unfoldable pub validate_identifier : Text → Result TableError (Unit {0})
validate_identifier name =
    if not (is_empty name) && all_identifier_bytes name then ok tt else err (invalid_name name)

-- The loop over the columns, with the offset reached and the names seen.
unfoldable pub compile_columns :
    List ColumnSchema → ℕ → List Text → Result TableError (List LayoutColumn × ℕ)
compile_columns [] offset seen_names = ok ([], offset)
compile_columns (c ∷ cs) offset seen_names = do
  validate_identifier c.name
  if contains seen_names c.name then err (duplicate_column c.name) else do
    let len = fixed_len c.column_type
    if len == 0 then err (invalid_schema "column length must be greater than zero") else do
      next ← ok_or (checked_add offset len) (invalid_schema "record size overflow")
      (rest, record_size) ← compile_columns cs next (c.name ∷ seen_names)
      ok (
        record { name = c.name; column_type = c.column_type; offset = offset } ∷ rest,
        record_size,
      )

unfoldable pub compile_schema : TableSchema → Result TableError SchemaLayout
compile_schema schema = do
  validate_identifier schema.name
  if is_empty schema.columns
      then err (invalid_schema "tables must contain at least one column")
      else do
        (columns, record_size) ← compile_columns schema.columns 0 []
        ok (record { columns = columns; record_size = record_size })
