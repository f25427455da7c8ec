-- ===== src/Examples/Queries.antt =====
-- Requests on the table of students, planned and run.
use rs_redbase.Prelude.{
  ℕ, ◌≡◌, ◌≢◌, ◌↔◌, ◌⊎◌, refl, List, [], ◌∷◌, arith, ok, err, Returns, some, none,
}
use rs_redbase.Prelude.Int.{pos, negsuc}
use rs_redbase.Prelude.Bytes.{compare_bytes, eq_bytes}
use rs_redbase.Prelude.Text.{contains}
use rs_redbase.Record.Types.{ScanCompOp}
use rs_redbase.Table.Types.{
  ColumnType, Value, Row, Expr, compare_values, column_not_found, invalid_schema,
}
use rs_redbase.Table.Codec.{encode_row}
use rs_redbase.Table.Codec.Encoded.{cells}
use rs_redbase.Table.Compile.{compile_expr}
use rs_redbase.Query.Types.{
  NamedValue, InsertInput, Assignment, Projection, SortDirection, ExtendedSelectRequest, SelectPlan,
  NormalizedAssignment,
}
use rs_redbase.Query.Columns.{
  find_from, resolve_schema_column, has_column, require_column, validate_expr_columns,
  value_matches_type,
}
use rs_redbase.Query.Insert.{
  gather, remove_value, order_values, normalize_named_insert, normalize_insert_input,
  validate_types, validate_row_types,
}
use rs_redbase.Query.Insert.Assigned.{NamesOnce, Assigned}
use rs_redbase.Query.Insert.Ordered.{normalize_named_insert_iff}
use rs_redbase.Query.Insert.Encodes.{HasOverlong, normalize_insert_input-encodes}
use rs_redbase.Query.Update.{normalize_each, normalize_assignments}
use rs_redbase.Query.Update.Plans.{ArePlanned, normalize_assignments-ArePlanned}
use rs_redbase.Query.Checked.{validate_expr_columns-compiles}
use rs_redbase.Query.Select.{
  range_from, resolve_columns, resolve_projection, resolve_keys, resolve_order_by, normalize_limit,
  resolve_select_plan, compare_row_value_at, compare_rows, insert_row, insert_rows, sort_rows,
  apply_order_by, apply_limit, value_from_row, project_indices, project_row, project_rows,
  finish_select,
}
use rs_redbase.Query.Select.Projecting.{IsSelected, AreValues, project_row-AreValues}
use rs_redbase.Query.Select.Orders.{IsSorted, Sorts}
use rs_redbase.Query.Select.Sorting.{apply_order_by-IsSorted}
use rs_redbase.Query.Typed.{AreRows}
use rs_redbase.Query.Select.Finished.{Selected, finish_select-Selected}
use rs_redbase.Examples.Rows.{text, student, student_layout, student_compiles, alice}

-- All that a run of this module computes through.
program : Unit {0}
unfolding compare_bytes eq_bytes contains compare_values find_from resolve_schema_column has_column
    require_column validate_expr_columns value_matches_type gather remove_value order_values
    normalize_named_insert normalize_insert_input validate_types validate_row_types normalize_each
    normalize_assignments range_from resolve_columns resolve_projection resolve_keys
    resolve_order_by normalize_limit resolve_select_plan compare_row_value_at compare_rows
    insert_row insert_rows sort_rows apply_order_by apply_limit value_from_row project_indices
    project_row project_rows finish_select
program = tt

-- Alice again, her columns named in another order.
abbrev named_alice : List NamedValue
named_alice =
    record { column = text "name"; value = Value.char (text "alice") }
    ∷ record { column = text "id"; value = Value.int32 (negsuc 1) }
    ∷ record { column = text "score"; value = Value.float32 0x3fc0_0000 }
    ∷ []

alice_inserted : normalize_named_insert (text "student") student named_alice ≡ ok alice
unfolding program
alice_inserted = refl

normalize_named_insert_iff_example :
    (normalize_named_insert (text "student") student named_alice ≡ ok alice)
    ↔ (NamesOnce student.columns [] named_alice × Assigned named_alice student.columns alice)
normalize_named_insert_iff_example =
    normalize_named_insert_iff (text "student") student student_layout named_alice alice
      student_compiles

named_input_accepted :
    normalize_insert_input (text "student") student (InsertInput.named named_alice) ≡ ok alice
unfolding program
named_input_accepted = refl

normalize_insert_input-encodes_example :
    ((encode_row student_layout alice ≡ ok (cells student_layout.columns alice))
      × (HasOverlong student_layout.columns alice → ⊥))
    ⊎ ((encode_row student_layout alice
          ≡ err (invalid_schema "char values must not exceed the declared length"))
        × HasOverlong student_layout.columns alice)
normalize_insert_input-encodes_example =
    normalize_insert_input-encodes (text "student") student student_layout
      (InsertInput.named named_alice) alice student_compiles named_input_accepted

abbrev new_name : Assignment
new_name = record { column = text "name"; value = Value.char (text "bob") }

abbrev new_id : Assignment
new_id = record { column = text "id"; value = Value.int32 (pos 7) }

-- The name is the third column, and the plan keeps the request's order.
abbrev renamed : List NormalizedAssignment
renamed =
    record { index = 2; column = text "name"; value = Value.char (text "bob") }
    ∷ record { index = 0; column = text "id"; value = Value.int32 (pos 7) }
    ∷ []

renamed_planned :
    normalize_assignments (text "student") student (new_name ∷ new_id ∷ []) ≡ ok renamed
unfolding program
renamed_planned = refl

normalize_assignments-ArePlanned_example :
    (new_name ∷ new_id ∷ [] ≢ []) × ArePlanned student.columns [] (new_name ∷ new_id ∷ []) renamed
normalize_assignments-ArePlanned_example =
    normalize_assignments-ArePlanned (text "student") student (new_name ∷ new_id ∷ []) renamed
      renamed_planned

abbrev positive : Expr
positive = Expr.not (Expr.cmp_value (text "id") ScanCompOp.le (Value.int32 (pos 0)))

positive_checked : validate_expr_columns (text "student") student positive ≡ ok tt
unfolding program
positive_checked = refl

validate_expr_columns-compiles_example :
    compile_expr student_layout positive ≢ err (column_not_found (text "id"))
validate_expr_columns-compiles_example =
    validate_expr_columns-compiles (text "student") student student_layout positive (text "id")
      student_compiles positive_checked

abbrev row : ℕ → ℕ → Row
row id score = record {
  values = Value.int32 (pos id) ∷ Value.float32 score ∷ Value.char (text "x") ∷ [];
}

abbrev rows : List Row
rows = row 1 5 ∷ row 2 9 ∷ row 3 5 ∷ row 4 9 ∷ []

rows-AreRows : AreRows student.columns rows
unfolding program
rows-AreRows = (
  (refl, (refl, (refl, tt))),
  ((refl, (refl, (refl, tt))), ((refl, (refl, (refl, tt))), ((refl, (refl, (refl, tt))), tt))),
)

abbrev best : ExtendedSelectRequest
best = record {
  table = text "student";
  filter = none;
  projection = Projection.columns (text "score" ∷ text "id" ∷ []);
  order_by = record { column = text "score"; direction = SortDirection.desc } ∷ [];
  limit = some 3;
}

abbrev best_plan : SelectPlan
best_plan = record {
  projection = record {
    columns =
        record { name = text "score"; column_type = ColumnType.float32 }
        ∷ record { name = text "id"; column_type = ColumnType.int32 }
        ∷ [];
    indices = 1 ∷ 0 ∷ [];
  };
  order_by = record { index = 1; direction = SortDirection.desc } ∷ [];
  limit = some 3;
}

best_planned : resolve_select_plan (text "student") student best ≡ ok best_plan
unfolding program
best_planned = refl

-- Ties keep their order: 2 before 4, and 1 before 3.
best_runs :
    finish_select rows best_plan
    ≡ ok (
        (Value.float32 9 ∷ Value.int32 (pos 2) ∷ [])
        ∷ (Value.float32 9 ∷ Value.int32 (pos 4) ∷ [])
        ∷ (Value.float32 5 ∷ Value.int32 (pos 1) ∷ [])
        ∷ [])
unfolding program
best_runs = refl

finish_select-Selected_example :
    Returns (finish_select rows best_plan) (Selected student best best_plan rows)
finish_select-Selected_example =
    finish_select-Selected (text "student") student best best_plan rows best_planned rows-AreRows

apply_order_by-IsSorted_example : Returns (apply_order_by rows best_plan.order_by) (λ result.
    AreRows student.columns result
    × IsSorted best_plan.order_by result
    × Sorts best_plan.order_by rows result)
apply_order_by-IsSorted_example =
    apply_order_by-IsSorted best_plan.order_by student.columns rows (omega arith, tt) rows-AreRows

best_projected :
    resolve_projection (text "student") student best.projection ≡ ok best_plan.projection
unfolding program
best_projected = refl

project_row-AreValues_example :
    IsSelected student best.projection best_plan.projection.columns
    × Returns
        (project_row (row 1 5) best_plan.projection)
        (AreValues student.columns (row 1 5).values best_plan.projection.columns)
project_row-AreValues_example =
    project_row-AreValues (text "student") student best.projection best_plan.projection (row 1 5)
      best_projected refl
