-- ===== src/Table/Compile.antt =====
-- `compile_expr`, `scan_field` and `scan_value` of table/mod.rs: expressions over column names
-- become filters over byte offsets.
pub mod Padding
pub mod Valid
pub mod Eval
pub mod Meaning
use rs_redbase.Prelude.{
  ℕ, String, Bool, true, false, not, ◌&&◌, List, [], ◌∷◌, ◌==◌, ltb, length, replicate,
  if◌then◌else◌, Result, ok, err, map_err, ◌>>=◌,
}
use rs_redbase.Prelude.Bytes.{copy_into}
use rs_redbase.Record.Types.{ScanValue}
use rs_redbase.Record.Field
use rs_redbase.Record.Field.{ScanFieldRef}
use rs_redbase.Record.Clause.{field_equals_value, field_compares_field}
use rs_redbase.Record.Logic.{LogicFilter, LogicFilters, and_node, or_node}
use rs_redbase.Table.Types.{
  ColumnType, Value, Expr, Exprs, TableError, record_error, invalid_schema, value_type_mismatch,
}
use rs_redbase.Table.Schema.{LayoutColumn, SchemaLayout, column}

abbrev pub field_of_type : ℕ → ColumnType → ScanFieldRef
field_of_type offset ColumnType.int32 = Field.int32 offset
field_of_type offset ColumnType.float32 = Field.float32 offset
field_of_type offset (ColumnType.char len) = Field.bytes offset len

unfoldable pub scan_field : LayoutColumn → Result TableError ScanFieldRef
scan_field c = ok (field_of_type c.offset c.column_type)

abbrev pub mismatch_message : Value → String
mismatch_message (Value.int32 _) = "int32 expression does not match the selected column type"
mismatch_message (Value.float32 _) = "float32 expression does not match the selected column type"
mismatch_message (Value.char _) = "char expression does not match the selected column type"

-- The match on the column's type and the value.
abbrev pub scan_value_as : LayoutColumn → ColumnType → Value → Result TableError ScanValue
scan_value_as c ColumnType.int32 (Value.int32 number) = ok (ScanValue.int32 number)
scan_value_as c ColumnType.float32 (Value.float32 number) = ok (ScanValue.float32 number)
scan_value_as c (ColumnType.char len) (Value.char text) =
    if ltb len (length text)
    then err (value_type_mismatch c.name "Char" "Char")
    else do bytes ← copy_into (replicate len 0) 0 text; ok (ScanValue.bytes bytes)
scan_value_as c _ value = err (invalid_schema (mismatch_message value))

unfoldable pub scan_value : LayoutColumn → Value → Result TableError ScanValue
scan_value c value = scan_value_as c c.column_type value

unfoldable mutual
  pub compile_expr : SchemaLayout → Expr → Result TableError LogicFilter
  compile_expr layout (Expr.cmp_value name op value) = do
    c ← column layout name
    field ← scan_field c
    v ← scan_value c value
    ok (LogicFilter.clause (field_equals_value field op v))
  compile_expr layout (Expr.cmp_columns lhs op rhs) = do
    left ← column layout lhs
    l ← scan_field left
    right ← column layout rhs
    r ← scan_field right
    ok (LogicFilter.clause (field_compares_field l op r))
  compile_expr layout (Expr.and children) = do
    compiled ← compile_exprs layout children
    map_err record_error (and_node compiled)
  compile_expr layout (Expr.or children) = do
    compiled ← compile_exprs layout children
    map_err record_error (or_node compiled)
  compile_expr layout (Expr.not child) = do f ← compile_expr layout child; ok (LogicFilter.not f)

  -- `collect` stops at the first error.
  pub compile_exprs : SchemaLayout → Exprs → Result TableError LogicFilters
  compile_exprs layout Exprs.nil = ok LogicFilters.nil
  compile_exprs layout (Exprs.cons e es) = do
    f ← compile_expr layout e
    fs ← compile_exprs layout es
    ok (LogicFilters.cons f fs)

abbrev same_column_type : ColumnType → ColumnType → Bool
same_column_type ColumnType.int32 ColumnType.int32 = true
same_column_type ColumnType.float32 ColumnType.float32 = true
same_column_type (ColumnType.char m) (ColumnType.char n) = m == n
same_column_type _ _ = false

abbrev same_type_columns : Result TableError LayoutColumn → Result TableError LayoutColumn → Bool
same_type_columns (ok l) (ok r) = same_column_type l.column_type r.column_type
same_type_columns _ _ = false

abbrev pub ends_in_nul : List ℕ → Bool
ends_in_nul [] = false
ends_in_nul (b ∷ []) = b == 0
ends_in_nul (b ∷ c ∷ bs) = ends_in_nul (c ∷ bs)

-- Constants that a column can hold: text with no NUL at its end.
abbrev is_plain : Value → Bool
is_plain (Value.char text) = not (ends_in_nul text)
is_plain _ = true

-- The expressions that the theorems below are about: comparisons of columns of one type, and with
-- plain constants.
unfoldable mutual
  pub is_comparable : SchemaLayout → Expr → Bool
  is_comparable layout (Expr.cmp_value name op value) = is_plain value
  is_comparable layout (Expr.cmp_columns lhs op rhs) =
      same_type_columns (column layout lhs) (column layout rhs)
  is_comparable layout (Expr.and children) = are_comparable layout children
  is_comparable layout (Expr.or children) = are_comparable layout children
  is_comparable layout (Expr.not child) = is_comparable layout child

  pub are_comparable : SchemaLayout → Exprs → Bool
  are_comparable layout Exprs.nil = true
  are_comparable layout (Exprs.cons e es) = is_comparable layout e && are_comparable layout es
