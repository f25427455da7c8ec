-- ===== src/Query/Update.antt =====
-- `normalize_assignments`, `resolve_update_plan` and `resolve_delete_plan` of query/mod.rs.
pub mod Plans
use rs_redbase.Prelude.{
  not, Option, none, some, List, [], ◌∷◌, if◌then◌else◌, Result, ok, err, ◌>>=◌, ◌>>◌,
}
use rs_redbase.Prelude.Text.{Text, contains}
use rs_redbase.Table.Types.{TableSchema, Expr}
use rs_redbase.Query.Types.{
  QueryError, empty_assignments, duplicate_update_column, value_type_mismatch, Assignment,
  UpdateRequest, DeleteRequest, NormalizedAssignment, UpdatePlan,
}
use rs_redbase.Query.Columns.{
  resolve_schema_column, validate_expr_columns, value_matches_type, column_type_name,
  value_type_name,
}

-- The loop over the assignments, with the names seen.
unfoldable pub normalize_each :
    Text → TableSchema → List Assignment → List Text → Result QueryError (List NormalizedAssignment)
normalize_each table schema [] seen = ok []
normalize_each table schema (a ∷ assignments) seen =
    if contains seen a.column then err (duplicate_update_column table a.column) else do
      (index, column) ← resolve_schema_column schema table a.column
      if not (value_matches_type column.column_type a.value)
          then err (
              value_type_mismatch table a.column (column_type_name column.column_type)
                (value_type_name a.value))
          else do
            normalized ← normalize_each table schema assignments (a.column ∷ seen)
            ok (record { index = index; column = a.column; value = a.value } ∷ normalized)

unfoldable pub normalize_assignments :
    Text → TableSchema → List Assignment → Result QueryError (List NormalizedAssignment)
normalize_assignments table schema [] = err (empty_assignments table)
normalize_assignments table schema (a ∷ assignments) =
    normalize_each table schema (a ∷ assignments) []

-- `if let Some(expr) = &request.filter { … }`.
unfoldable pub validate_filter : Text → TableSchema → Option Expr → Result QueryError (Unit {0})
validate_filter table schema none = ok tt
validate_filter table schema (some expr) = validate_expr_columns table schema expr

unfoldable pub resolve_update_plan :
    Text → TableSchema → UpdateRequest → Result QueryError UpdatePlan
resolve_update_plan table schema request = do
  validate_filter table schema request.filter
  assignments ← normalize_assignments table schema request.assignments
  ok (record { assignments = assignments })

unfoldable pub resolve_delete_plan :
    Text → TableSchema → DeleteRequest → Result QueryError (Unit {0})
resolve_delete_plan table schema request = validate_filter table schema request.filter
