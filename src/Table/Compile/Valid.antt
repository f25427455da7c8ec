-- ===== src/Table/Compile/Valid.antt =====
-- `compile_expr` of table/mod.rs and `validate_for_record` of storage/record together.
use rs_redbase.Prelude.{
  ℕ, ◌+◌, ◌≤◌, ◌<◌, ◌≡◌, refl, ap, true, false, [], arith, ltb, length, ok, map_err, bind_succeeds,
  ok_injective, ==_refl, ◌-◌, sym, ◌∙◌, ◌++◌, length-append,
}
use rs_redbase.Prelude.Bytes.{Bytes, copy_into_exact}
use rs_redbase.Table.Codec.Encoded.{zeros, length-zeros, replicate-add}
use rs_redbase.Table.Compile.Padding.{padded}
use rs_redbase.Prelude.Text.{Text}
use rs_redbase.Record.Types.{ScanCompOp, same_type, ScanValue}
use rs_redbase.Record.Field
use rs_redbase.Record.Field.{ScanFieldRef, value_fits}
use rs_redbase.Record.Clause
use rs_redbase.Record.Logic.{
  LogicFilter, LogicFilters, and_node, or_node, validate_for_record, validate_each,
}
use rs_redbase.Table.Types.{
  ColumnType, Value, Expr, Exprs, TableSchema, TableError, record_error, fixed_len,
}
use rs_redbase.Table.Schema.{LayoutColumn, SchemaLayout, column, compile_schema}
use rs_redbase.Table.Schema.Offsets.{column-FoundAt, compile_schema-LayoutOf}
use rs_redbase.Table.Compile.{
  field_of_type, scan_field, scan_value, scan_value_as, same_column_type, is_comparable,
  are_comparable, compile_expr, compile_exprs,
}

field_of_type-valid :
    (offset n : ℕ) (t : ColumnType)
    → 0 < fixed_len t
    → offset + fixed_len t ≤ n
    → n < 18446744073709551616
    → Field.validate_for_record (field_of_type offset t) n ≡ ok tt
unfolding Field.validate_for_record
field_of_type-valid offset n ColumnType.int32 solid within small = ground arith
field_of_type-valid offset n ColumnType.float32 solid within small = ground arith
field_of_type-valid offset n (ColumnType.char len) solid within small = ground arith

scan_char :
    (c : LayoutColumn) (len : ℕ) (text : Bytes)
    → length text ≤ len
    → scan_value_as c (ColumnType.char len) (Value.char text)
      ≡ ok (ScanValue.bytes (padded len text))
scan_char c len text fits =
    let short : ltb len (length text) ≡ false = ground arith in
    let split : zeros len ≡ zeros (length text) ++ zeros (len - length text) =
      ap zeros (let e : len ≡ length text + (len - length text) = omega arith in e)
      ∙ replicate-add (length text) (len - length text) 0 in
    rw (
      short,
      split,
      copy_into_exact {E = TableError} [] (zeros (length text)) text (zeros (len - length text)) 0
          refl (length-zeros (length text)),
    )

pub scan_char_inv :
    (c : LayoutColumn) (len : ℕ) (text : Bytes) (v : ScanValue)
    → scan_value_as c (ColumnType.char len) (Value.char text) ≡ ok v
    → (length text ≤ len) × (ScanValue.bytes (padded len text) ≡ v)
scan_char_inv c len text v h =
    let fits : length text ≤ len = ground arith in
    (fits, ok_injective (sym (scan_char c len text fits) ∙ h))

length-padded : (n : ℕ) (text : Bytes) → length text ≤ n → length (padded n text) ≡ n
length-padded n text h =
    omega (arith, length-append text (zeros (n - length text)), length-zeros (n - length text))

-- The value that `scan_value` makes fits the field that `scan_field` makes.
scan_value_as-fits :
    (c : LayoutColumn) (t : ColumnType) (value : Value) (offset : ℕ) (v : ScanValue)
    → scan_value_as c t value ≡ ok v
    → value_fits (field_of_type offset t).field_type (field_of_type offset t).length v ≡ ok tt
scan_value_as-fits c ColumnType.int32 (Value.int32 n) offset v h = rw (← ok_injective h)
scan_value_as-fits c ColumnType.float32 (Value.float32 n) offset v h = rw (← ok_injective h)
scan_value_as-fits c (ColumnType.char len) (Value.char text) offset v h =
    let inv = scan_char_inv c len text v h in
    rw (← inv.1, length-padded len text inv.0, ==_refl len)
scan_value_as-fits c ColumnType.int32 _ offset v h = cc
scan_value_as-fits c ColumnType.float32 _ offset v h = cc
scan_value_as-fits c (ColumnType.char len) _ offset v h = cc

value_clause-valid :
    (c : LayoutColumn) (field : ScanFieldRef) (op : ScanCompOp) (v : ScanValue) (n : ℕ)
    → Field.validate_for_record field n ≡ ok tt
    → value_fits field.field_type field.length v ≡ ok tt
    → Clause.validate_for_record (Clause.field_equals_value field op v) n ≡ ok tt
unfolding Clause.validate_for_record Field.validate_value_against_field
value_clause-valid c field op v n h k = ground arith

field_clause-valid :
    (l r : ScanFieldRef) (op : ScanCompOp) (n : ℕ)
    → Field.validate_for_record l n ≡ ok tt
    → Field.validate_for_record r n ≡ ok tt
    → (same_type l.field_type r.field_type ≡ true) × (l.length ≡ r.length)
    → Clause.validate_for_record (Clause.field_compares_field l op r) n ≡ ok tt
unfolding Clause.validate_for_record
field_clause-valid l r op n h k same = ground arith

same_fields :
    (o p : ℕ) (s t : ColumnType)
    → same_column_type s t ≡ true
    → (same_type (field_of_type o s).field_type (field_of_type p t).field_type ≡ true)
      × ((field_of_type o s).length ≡ (field_of_type p t).length)
same_fields o p s t h = (ground arith, ground arith)

module _ (schema : TableSchema) (layout : SchemaLayout)
    (compiled : compile_schema schema ≡ ok layout) where
  column-valid :
      (name : Text) (c : LayoutColumn)
      → column layout name ≡ ok c
      → Field.validate_for_record (field_of_type c.offset c.column_type) layout.record_size ≡ ok tt
  column-valid name c found =
      let at = column-FoundAt schema layout name c compiled found in
      field_of_type-valid c.offset layout.record_size c.column_type at.1 at.2
        (compile_schema-LayoutOf schema layout compiled).columns.small

  cmp_value-valid :
      (name : Text) (op : ScanCompOp) (value : Value) (f : LogicFilter)
      → compile_expr layout (Expr.cmp_value name op value) ≡ ok f
      → validate_for_record f layout.record_size ≡ ok tt
  unfolding compile_expr scan_field scan_value validate_for_record
  cmp_value-valid name op value f h =
      let (c, found, h1) = bind_succeeds (column layout name) _ h in
      let (v, scanned, h2) = bind_succeeds (scan_value_as c c.column_type value) _ h1 in
      rw (← ok_injective h2) (
        value_clause-valid c (field_of_type c.offset c.column_type) op v layout.record_size
          (column-valid name c found) (scan_value_as-fits c c.column_type value c.offset v scanned))

  cmp_columns-valid :
      (lhs : Text) (op : ScanCompOp) (rhs : Text) (f : LogicFilter)
      → compile_expr layout (Expr.cmp_columns lhs op rhs) ≡ ok f
      → is_comparable layout (Expr.cmp_columns lhs op rhs) ≡ true
      → validate_for_record f layout.record_size ≡ ok tt
  unfolding compile_expr scan_field validate_for_record is_comparable
  cmp_columns-valid lhs op rhs f h k =
      let (l, left, h1) = bind_succeeds (column layout lhs) _ h in
      let (r, right, h2) = bind_succeeds (column layout rhs) _ h1 in
      rw (← ok_injective h2) (
        field_clause-valid (field_of_type l.offset l.column_type)
          (field_of_type r.offset r.column_type) op layout.record_size (column-valid lhs l left)
          (column-valid rhs r right)
          (same_fields l.offset r.offset l.column_type r.column_type (rw (left, right) at k)))

  and_node-valid :
      (fs : LogicFilters) (f : LogicFilter) (n : ℕ)
      → map_err record_error (and_node fs) ≡ ok f
      → validate_each fs n ≡ ok tt
      → validate_for_record f n ≡ ok tt
  unfolding and_node validate_for_record
  and_node-valid LogicFilters.nil f n h each = cc
  and_node-valid (LogicFilters.cons g gs) f n h each = rw (← ok_injective h) each

  or_node-valid :
      (fs : LogicFilters) (f : LogicFilter) (n : ℕ)
      → map_err record_error (or_node fs) ≡ ok f
      → validate_each fs n ≡ ok tt
      → validate_for_record f n ≡ ok tt
  unfolding or_node validate_for_record
  or_node-valid LogicFilters.nil f n h each = cc
  or_node-valid (LogicFilters.cons g gs) f n h each = rw (← ok_injective h) each

  mutual
    unfolding compile_expr validate_for_record is_comparable

    pub compile_expr-valid :
        (e : Expr) (f : LogicFilter)
        → compile_expr layout e ≡ ok f
        → is_comparable layout e ≡ true
        → validate_for_record f layout.record_size ≡ ok tt
    compile_expr-valid (Expr.cmp_value name op value) f h k = cmp_value-valid name op value f h
    compile_expr-valid (Expr.cmp_columns lhs op rhs) f h k = cmp_columns-valid lhs op rhs f h k
    compile_expr-valid (Expr.and es) f h k =
        let (fs, run, node) = bind_succeeds (compile_exprs layout es) _ h in
        and_node-valid fs f layout.record_size node (compile_exprs-valid es fs run k)
    compile_expr-valid (Expr.or es) f h k =
        let (fs, run, node) = bind_succeeds (compile_exprs layout es) _ h in
        or_node-valid fs f layout.record_size node (compile_exprs-valid es fs run k)
    compile_expr-valid (Expr.not e) f h k =
        let (g, run, node) = bind_succeeds (compile_expr layout e) _ h in
        rw (← ok_injective node) (compile_expr-valid e g run k)

    pub compile_exprs-valid :
        (es : Exprs) (fs : LogicFilters)
        → compile_exprs layout es ≡ ok fs
        → are_comparable layout es ≡ true
        → validate_each fs layout.record_size ≡ ok tt
    compile_exprs-valid Exprs.nil fs h k = rw (← ok_injective h)
    compile_exprs-valid (Exprs.cons e es) fs h k =
        let (g, run, h1) = bind_succeeds (compile_expr layout e) _ h in
        let (gs, rest, h2) = bind_succeeds (compile_exprs layout es) _ h1 in
        rw (← ok_injective h2, compile_expr-valid e g run (ground arith))
          (compile_exprs-valid es gs rest (ground arith))
