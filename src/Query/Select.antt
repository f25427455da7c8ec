-- ===== src/Query/Select.antt =====
-- `resolve_select_plan`, ordering, limits and projection of query/mod.rs.
pub mod Projecting
pub mod Orders
pub mod Sorting
pub mod Finished
use rs_redbase.Prelude.{
  ℕ, zero, suc, Bool, true, false, ◌&&◌, Option, none, some, List, [], ◌∷◌, Ordering, get_elem?,
  take, map, length, if◌then◌else◌, Result, ok, err, expect, ◌>>=◌, ◌>>◌,
}
use rs_redbase.Prelude.Bytes.{reverse_ordering}
use rs_redbase.Prelude.Text.{Text, contains}
use rs_redbase.Table.Types.{ColumnSchema, TableSchema, Value, Row, compare_values}
use rs_redbase.Query.Types.{
  QueryError, duplicate_request_column, duplicate_order_column, invalid_limit, Projection,
  SortDirection, OrderBy, ExtendedSelectRequest, ProjectionPlan, OrderKeyPlan, SelectPlan,
}
use rs_redbase.Query.Columns.{resolve_schema_column}

-- `(start..start + n).collect()`.
unfoldable pub range_from : ℕ → ℕ → List ℕ
range_from start zero = []
range_from start (suc n) = start ∷ range_from (suc start) n

-- The loop over the requested columns, with the names seen.
unfoldable pub resolve_columns :
    Text → TableSchema → List Text → List Text → Result QueryError (List ColumnSchema × List ℕ)
resolve_columns table schema [] seen = ok ([], [])
resolve_columns table schema (column ∷ columns) seen =
    if contains seen column then err (duplicate_request_column table column) else do
      (index, schema_column) ← resolve_schema_column schema table column
      (resolved_columns, resolved_indices) ← resolve_columns table schema columns (column ∷ seen)
      ok (schema_column ∷ resolved_columns, index ∷ resolved_indices)

unfoldable pub resolve_projection :
    Text → TableSchema → Projection → Result QueryError ProjectionPlan
resolve_projection table schema Projection.all =
    ok (record { columns = schema.columns; indices = range_from 0 (length schema.columns) })
resolve_projection table schema (Projection.columns columns) = do
  (resolved_columns, resolved_indices) ← resolve_columns table schema columns []
  ok (record { columns = resolved_columns; indices = resolved_indices })

unfoldable pub resolve_keys :
    Text → TableSchema → List OrderBy → List Text → Result QueryError (List OrderKeyPlan)
resolve_keys table schema [] seen = ok []
resolve_keys table schema (item ∷ order_by) seen =
    if contains seen item.column then err (duplicate_order_column table item.column) else do
      (index, _) ← resolve_schema_column schema table item.column
      resolved ← resolve_keys table schema order_by (item.column ∷ seen)
      ok (record { index = index; direction = item.direction } ∷ resolved)

unfoldable pub resolve_order_by :
    Text → TableSchema → List OrderBy → Result QueryError (List OrderKeyPlan)
resolve_order_by table schema order_by = resolve_keys table schema order_by []

unfoldable pub normalize_limit : Text → Option ℕ → Result QueryError (Option ℕ)
normalize_limit table (some zero) = err (invalid_limit table 0)
normalize_limit table (some (suc value)) = ok (some (suc value))
normalize_limit table none = ok none

unfoldable pub resolve_select_plan :
    Text → TableSchema → ExtendedSelectRequest → Result QueryError SelectPlan
resolve_select_plan table schema request = do
  projection ← resolve_projection table schema request.projection
  order_by ← resolve_order_by table schema request.order_by
  limit ← normalize_limit table request.limit
  ok (record { projection = projection; order_by = order_by; limit = limit })

-- An index past the row panics.
unfoldable pub compare_row_value_at : Row → Row → ℕ → Result QueryError Ordering
compare_row_value_at lhs rhs index = do
  lhs_value ← expect (get_elem? lhs.values index)
  rhs_value ← expect (get_elem? rhs.values index)
  ok (compare_values lhs_value rhs_value)

abbrev pub directed : SortDirection → Ordering → Ordering
directed SortDirection.asc ordering = ordering
directed SortDirection.desc ordering = reverse_ordering ordering

abbrev pub is_tie : Ordering → Bool
is_tie o = elim o [ Ordering.eq ↦ true | _ ↦ false ]

unfoldable pub compare_rows : Row → Row → List OrderKeyPlan → Result QueryError Ordering
compare_rows lhs rhs [] = ok Ordering.eq
compare_rows lhs rhs (key ∷ order_by) = do
  ordering ← compare_row_value_at lhs rhs key.index
  let ordering' = directed key.direction ordering
  if is_tie ordering' then compare_rows lhs rhs order_by else ok ordering'

-- Of a stable sort: an element goes before the first later one that does not order strictly below
-- it.
unfoldable pub insert_row : Row → List Row → List OrderKeyPlan → Result QueryError (List Row)
insert_row row [] order_by = ok (row ∷ [])
insert_row row (other ∷ rows) order_by = do
  ordering ← compare_rows row other order_by
  elim ordering [
    | Ordering.gt ↦ do rest ← insert_row row rows order_by; ok (other ∷ rest)
    | _ ↦ ok (row ∷ other ∷ rows)
  ]

unfoldable pub insert_rows : List Row → List OrderKeyPlan → Result QueryError (List Row)
insert_rows [] order_by = ok []
insert_rows (row ∷ rows) order_by = do
  sorted ← insert_rows rows order_by
  insert_row row sorted order_by

-- Two values of one kind. Values of two kinds compare equal, so among values of several kinds the
-- comparison is no order.
abbrev pub same_kind : Option Value → Option Value → Bool
same_kind (some (Value.int32 _)) (some (Value.int32 _)) = true
same_kind (some (Value.float32 _)) (some (Value.float32 _)) = true
same_kind (some (Value.char _)) (some (Value.char _)) = true
same_kind (some _) (some _) = false
same_kind _ _ = true

abbrev pub are_comparable : Row → Row → List OrderKeyPlan → Bool
are_comparable lhs rhs [] = true
are_comparable lhs rhs (key ∷ order_by) =
    same_kind (get_elem? lhs.values key.index) (get_elem? rhs.values key.index)
    && are_comparable lhs rhs order_by

abbrev pub compares_with_all : Row → List Row → List OrderKeyPlan → Bool
compares_with_all row [] order_by = true
compares_with_all row (other ∷ rows) order_by =
    are_comparable row other order_by && compares_with_all row rows order_by

abbrev pub all_comparable : List Row → List OrderKeyPlan → Bool
all_comparable [] order_by = true
all_comparable (row ∷ rows) order_by =
    compares_with_all row rows order_by && all_comparable rows order_by

-- `sort_by` is a stable sort, of which there is one result where the comparison is a total order up to
-- ties: on rows whose values at each key are of one kind. Of a comparison that is no such order it is
-- documented to leave any order or to panic, which is a panic here.
unfoldable pub sort_rows : List Row → List OrderKeyPlan → Result QueryError (List Row)
sort_rows rows order_by =
    if all_comparable rows order_by then insert_rows rows order_by else Result.panicked

unfoldable pub apply_order_by : List Row → List OrderKeyPlan → Result QueryError (List Row)
apply_order_by rows [] = ok rows
apply_order_by rows (key ∷ order_by) = sort_rows rows (key ∷ order_by)

-- `truncate`.
unfoldable pub apply_limit : List Row → Option ℕ → List Row
apply_limit rows none = rows
apply_limit rows (some limit) = take limit rows

unfoldable pub value_from_row : Row → ℕ → Result QueryError Value
value_from_row row index = expect (get_elem? row.values index)

unfoldable pub project_indices : Row → List ℕ → Result QueryError (List Value)
project_indices row [] = ok []
project_indices row (index ∷ indices) = do
  value ← value_from_row row index
  values ← project_indices row indices
  ok (value ∷ values)

-- The values of a `ProjectedRow`.
unfoldable pub project_row : Row → ProjectionPlan → Result QueryError (List Value)
project_row row projection = project_indices row projection.indices

unfoldable pub project_rows : List Row → ProjectionPlan → Result QueryError (List (List Value))
project_rows [] projection = ok []
project_rows (row ∷ rows) projection = do
  values ← project_row row projection
  rest ← project_rows rows projection
  ok (values ∷ rest)

-- `execute_select` on the rows that the table returned.
unfoldable pub finish_select : List Row → SelectPlan → Result QueryError (List (List Value))
finish_select rows plan = do
  sorted ← apply_order_by rows plan.order_by
  project_rows (apply_limit sorted plan.limit) plan.projection
