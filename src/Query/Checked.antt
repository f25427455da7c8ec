-- ===== src/Query/Checked.antt =====
-- `validate_expr_columns` of query/mod.rs and `compile_expr` of table/mod.rs together.
use rs_redbase.Prelude.{
  ◌≡◌, ◌≢◌, refl, true, some, List, [], ◌∷◌, map, arith, Bool-cases, inl, inr, Result, ok, err,
  map_err, ◌>>=◌, panicked, first_passed, ap,
}
use rs_redbase.Prelude.Bytes.{eq_bytes, copy_into}
use rs_redbase.Prelude.Text.{Text}
use rs_redbase.Table.Types.{
  TableSchema, Expr, Exprs, Value, TableError, record_error, column_not_found,
}
use rs_redbase.Table.Schema.{LayoutColumn, SchemaLayout, find_column, column, compile_schema}
use rs_redbase.Table.Schema.Offsets.{declared, compile_schema-LayoutOf}
use rs_redbase.Table.Compile.{compile_expr, compile_exprs, scan_field, scan_value}
use rs_redbase.Record.Logic.{LogicFilters, and_node, or_node}
use rs_redbase.Query.Columns.{has_column, require_column, validate_expr_columns, validate_children}

has_column-find :
    (cs : List LayoutColumn) (name : Text)
    → has_column (map declared cs) name ≡ true
    → (c : LayoutColumn) × (find_column cs name ≡ some c)
unfolding has_column find_column
has_column-find [] name h = cc
has_column-find (c ∷ cs) name h = elim (Bool-cases (eq_bytes c.name name)) [
  | inl here ↦ (c, rw here refl)
  | inr later ↦ let (c', found) = has_column-find cs name (ground arith) in (c', rw later found)
]

require_column-found :
    (table : Text) (schema : TableSchema) (layout : SchemaLayout) (name : Text)
    → compile_schema schema ≡ ok layout
    → require_column schema table name ≡ ok tt
    → (c : LayoutColumn) × (column layout name ≡ ok c)
unfolding require_column column
require_column-found table schema layout name compiled h =
    let same = (compile_schema-LayoutOf schema layout compiled).columns.same in
    let has : has_column (map declared layout.columns) name ≡ true = rw same (ground arith) in
    let (c, found) = has_column-find layout.columns name has in (c, rw found refl)

-- The error of a compilation, or none, is not about a column that is missing.
abbrev pub FindsColumns : {A : Type 0} → Result TableError A → Type 0
FindsColumns outcome = (name : Text) → outcome ≢ err (column_not_found name)

problem_of : {A : Type 0} → TableError → Result TableError A → TableError
problem_of d (err problem) = problem
problem_of d _ = d

bind-FindsColumns :
    {A B : Type 0} (first : Result TableError A) (next : A → Result TableError B)
    → FindsColumns first
    → ((a : A) → FindsColumns (next a))
    → FindsColumns (first >>= next)
unfolding problem_of
bind-FindsColumns (ok a) next h k name e = k a name e
bind-FindsColumns (err problem) next h k name e =
    absurd (h name (ap err (ap (problem_of problem) e)))
bind-FindsColumns panicked next h k name e = cc

found-FindsColumns :
    {A : Type 0} (layout : SchemaLayout) (name : Text) (c : LayoutColumn)
    (next : LayoutColumn → Result TableError A)
    → column layout name ≡ ok c
    → FindsColumns (next c)
    → FindsColumns (column layout name >>= next)
found-FindsColumns layout name c next found h = rw found h

scan_value-FindsColumns : (c : LayoutColumn) (v : Value) → FindsColumns (scan_value c v)
unfolding scan_value copy_into
scan_value-FindsColumns c v name e = ground arith

and_node-FindsColumns : (fs : LogicFilters) → FindsColumns (map_err record_error (and_node fs))
unfolding and_node
and_node-FindsColumns LogicFilters.nil name e = cc
and_node-FindsColumns (LogicFilters.cons f fs) name e = cc

or_node-FindsColumns : (fs : LogicFilters) → FindsColumns (map_err record_error (or_node fs))
unfolding or_node
or_node-FindsColumns LogicFilters.nil name e = cc
or_node-FindsColumns (LogicFilters.cons f fs) name e = cc

module _ (table : Text) (schema : TableSchema) (layout : SchemaLayout)
    (compiled : compile_schema schema ≡ ok layout) where
  mutual
    unfolding validate_expr_columns validate_children compile_expr compile_exprs scan_field

    compile_expr-FindsColumns :
        (expr : Expr)
        → validate_expr_columns table schema expr ≡ ok tt
        → FindsColumns (compile_expr layout expr)
    compile_expr-FindsColumns (Expr.cmp_value lhs op v) h =
        let (c, found) = require_column-found table schema layout lhs compiled h in
        found-FindsColumns layout lhs c _ found
          (bind-FindsColumns (scan_value c v) _ (scan_value-FindsColumns c v) (λ s name e. cc))
    compile_expr-FindsColumns (Expr.cmp_columns lhs op rhs) h =
        let (now, later) =
          first_passed (require_column schema table lhs) (require_column schema table rhs) h in
        let (c, found) = require_column-found table schema layout lhs compiled now in
        let (c', found') = require_column-found table schema layout rhs compiled later in
        found-FindsColumns layout lhs c _ found
          (found-FindsColumns layout rhs c' _ found' (λ name e. cc))
    compile_expr-FindsColumns (Expr.and es) h =
        bind-FindsColumns (compile_exprs layout es) _ (compile_exprs-FindsColumns es h)
          and_node-FindsColumns
    compile_expr-FindsColumns (Expr.or es) h =
        bind-FindsColumns (compile_exprs layout es) _ (compile_exprs-FindsColumns es h)
          or_node-FindsColumns
    compile_expr-FindsColumns (Expr.not expr) h =
        bind-FindsColumns (compile_expr layout expr) _ (compile_expr-FindsColumns expr h)
          (λ f name e. cc)

    compile_exprs-FindsColumns :
        (es : Exprs)
        → validate_children table schema es ≡ ok tt
        → FindsColumns (compile_exprs layout es)
    compile_exprs-FindsColumns Exprs.nil h = λ name e. cc
    compile_exprs-FindsColumns (Exprs.cons x es) h =
        let (now, later) =
          first_passed (validate_expr_columns table schema x) (validate_children table schema es)
            h in
        bind-FindsColumns (compile_expr layout x) _ (compile_expr-FindsColumns x now) (λ f.
          bind-FindsColumns (compile_exprs layout es) _ (compile_exprs-FindsColumns es later)
            (λ fs name e. cc))

-- An expression whose columns the planner has found never fails to compile for a column that is not
-- found.
pub validate_expr_columns-compiles :
    (table : Text) (schema : TableSchema) (layout : SchemaLayout) (expr : Expr) (name : Text)
    → compile_schema schema ≡ ok layout
    → validate_expr_columns table schema expr ≡ ok tt
    → compile_expr layout expr ≢ err (column_not_found name)
validate_expr_columns-compiles table schema layout expr name compiled h =
    compile_expr-FindsColumns table schema layout compiled expr h name
