-- ===== src/Table/Codec.antt =====
-- `encode_row`, `encode_value`, `decode_record` and `decode_value` of table/mod.rs.
pub mod Encoded
pub mod RoundTrip
use rs_redbase.Prelude.{
  ℕ, suc, ◌+◌, Option, none, some, List, [], ◌∷◌, ltb, ◌==◌, length, take, replicate, not,
  if◌then◌else◌, Result, ok, err, ◌>>=◌,
}
use rs_redbase.Prelude.Bytes.{
  Bytes, slice, copy_into, fill_range, i32_to_le_bytes, u32_to_le_bytes, i32_from_le_bytes,
  u32_from_le_bytes,
}
use rs_redbase.Prelude.Text.{is_utf8}
use rs_redbase.Table.Types.{
  ColumnType, Value, TableError, column_kind_name, value_kind_name, invalid_schema,
  value_count_mismatch, value_type_mismatch, catalog_corrupted,
}
use rs_redbase.Table.Schema.{LayoutColumn, SchemaLayout}

-- The match on the column's type and the value.
unfoldable pub encode_as : Bytes → LayoutColumn → ColumnType → Value → Result TableError Bytes
encode_as target column ColumnType.int32 (Value.int32 number) =
    copy_into target column.offset (i32_to_le_bytes number)
encode_as target column ColumnType.float32 (Value.float32 number) =
    copy_into target column.offset (u32_to_le_bytes number)
encode_as target column (ColumnType.char len) (Value.char text) =
    if ltb len (length text)
    then err (invalid_schema "char values must not exceed the declared length")
    else do
      cleared ← fill_range target column.offset (column.offset + len) 0
      copy_into cleared column.offset text
encode_as target column expected actual =
    err (value_type_mismatch column.name (column_kind_name expected) (value_kind_name actual))

unfoldable pub encode_value : Bytes → LayoutColumn → Value → Result TableError Bytes
encode_value target column value = encode_as target column column.column_type value

-- The loop over the columns zipped with the values.
unfoldable pub encode_values : Bytes → List LayoutColumn → List Value → Result TableError Bytes
encode_values bytes [] values = ok bytes
encode_values bytes (c ∷ cs) [] = ok bytes
encode_values bytes (c ∷ cs) (v ∷ vs) = do
  bytes' ← encode_value bytes c v
  encode_values bytes' cs vs

unfoldable pub encode_row : SchemaLayout → List Value → Result TableError Bytes
encode_row layout values =
    if not (length values == length layout.columns)
    then err (value_count_mismatch (length layout.columns) (length values))
    else encode_values (replicate layout.record_size 0) layout.columns values

-- `raw.iter().rposition(|byte| *byte != 0)`.
unfoldable pub last_nonzero : Bytes → Option ℕ
last_nonzero [] = none
last_nonzero (b ∷ bs) = elim (last_nonzero bs) [
  | some i ↦ some (suc i)
  | none ↦ if b == 0 then none else some 0
]

unfoldable pub trim_zeros : Bytes → Bytes
trim_zeros raw = elim (last_nonzero raw) [ none ↦ [] | some i ↦ take (suc i) raw ]

-- The match on the column's type.
unfoldable pub decode_as : Bytes → ℕ → ColumnType → Result TableError Value
decode_as bytes start ColumnType.int32 = do
  raw ← slice bytes start (start + 4)
  number ← i32_from_le_bytes raw
  ok (Value.int32 number)
decode_as bytes start ColumnType.float32 = do
  raw ← slice bytes start (start + 4)
  number ← u32_from_le_bytes raw
  ok (Value.float32 number)
decode_as bytes start (ColumnType.char len) = do
  raw ← slice bytes start (start + len)
  let trimmed = trim_zeros raw
  if is_utf8 trimmed
      then ok (Value.char trimmed)
      else err (catalog_corrupted "stored char data is not valid UTF-8")

unfoldable pub decode_value : Bytes → LayoutColumn → Result TableError Value
decode_value bytes column = decode_as bytes column.offset column.column_type

unfoldable pub decode_columns : Bytes → List LayoutColumn → Result TableError (List Value)
decode_columns bytes [] = ok []
decode_columns bytes (c ∷ cs) = do
  v ← decode_value bytes c
  vs ← decode_columns bytes cs
  ok (v ∷ vs)

-- `decode_record`, on the record's data.
unfoldable pub decode_record : SchemaLayout → Bytes → Result TableError (List Value)
decode_record layout record_data = decode_columns record_data layout.columns
