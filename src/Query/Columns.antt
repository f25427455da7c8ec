-- ===== src/Query/Columns.antt =====
-- Column lookups and type tests of query/mod.rs.
use rs_redbase.Prelude.{
  ℕ, suc, String, Bool, true, false, Option, none, some, List, [], ◌∷◌, if◌then◌else◌, Result, ok,
  err, ok_or, ◌>>◌,
}
use rs_redbase.Prelude.Bytes.{eq_bytes}
use rs_redbase.Prelude.Text.{Text}
use rs_redbase.Table.Types.{
  ColumnType, ColumnSchema, TableSchema, Value, Expr, Exprs, column_kind_name, value_kind_name,
}
use rs_redbase.Query.Types.{QueryError, unknown_column}

-- `enumerate().find(…)`.
unfoldable pub find_from : ℕ → List ColumnSchema → Text → Option (ℕ × ColumnSchema)
find_from index [] column = none
find_from index (c ∷ cs) column =
    if eq_bytes c.name column then some (index, c) else find_from (suc index) cs column

unfoldable pub resolve_schema_column :
    TableSchema → Text → Text → Result QueryError (ℕ × ColumnSchema)
resolve_schema_column schema table column =
    ok_or (find_from 0 schema.columns column) (unknown_column table column)

unfoldable pub has_column : List ColumnSchema → Text → Bool
has_column [] column = false
has_column (c ∷ cs) column = if eq_bytes c.name column then true else has_column cs column

unfoldable pub require_column : TableSchema → Text → Text → Result QueryError (Unit {0})
require_column schema table column =
    if has_column schema.columns column then ok tt else err (unknown_column table column)

unfoldable mutual
  pub validate_expr_columns : Text → TableSchema → Expr → Result QueryError (Unit {0})
  validate_expr_columns table schema (Expr.cmp_value column op value) =
      require_column schema table column
  validate_expr_columns table schema (Expr.cmp_columns lhs op rhs) =
      require_column schema table lhs >> require_column schema table rhs
  validate_expr_columns table schema (Expr.and children) = validate_children table schema children
  validate_expr_columns table schema (Expr.or children) = validate_children table schema children
  validate_expr_columns table schema (Expr.not child) = validate_expr_columns table schema child

  pub validate_children : Text → TableSchema → Exprs → Result QueryError (Unit {0})
  validate_children table schema Exprs.nil = ok tt
  validate_children table schema (Exprs.cons e es) =
      validate_expr_columns table schema e >> validate_children table schema es

unfoldable pub value_matches_type : ColumnType → Value → Bool
value_matches_type ColumnType.int32 (Value.int32 _) = true
value_matches_type ColumnType.float32 (Value.float32 _) = true
value_matches_type (ColumnType.char _) (Value.char _) = true
value_matches_type _ _ = false

-- `column_type_name` and `value_type_name` repeat the `kind_name`s of the table layer.
abbrev pub column_type_name : ColumnType → String
column_type_name = column_kind_name

abbrev pub value_type_name : Value → String
value_type_name = value_kind_name
