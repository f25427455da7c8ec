-- ===== src/Table/Compile/Meaning.antt =====
-- `compile_expr` of table/mod.rs and `LogicFilter::matches` of storage/record together.
use rs_redbase.Prelude.{
  ℕ, ◌≡◌, refl, sym, ◌∙◌, ap, ap₂, true, not, ◌&&◌, ◌||◌, List, [], arith, length, take, drop, ok,
  bind_succeeds, ok_injective, map_err,
}
use rs_redbase.Prelude.Int.{compare_ℤ}
use rs_redbase.Prelude.Bytes.{Bytes}
use rs_redbase.Prelude.Text.{Text}
use rs_redbase.Record.Types.{ScanCompOp, ScanFieldType, ScanValue, compare_ordering, total_cmp}
use rs_redbase.Record.Logic.{
  LogicFilter, LogicFilters, and_node, or_node, matches, validate_for_record,
}
use rs_redbase.Record.Meaning.{
  read_as, field_value, order_values, holds, all_hold, any_holds, clause_holds,
}
use rs_redbase.Record.Meaning.Filters.{logic-eq}
use rs_redbase.Table.Types.{
  ColumnType, Value, Expr, Exprs, TableSchema, record_error, fixed_len, compare_values,
}
use rs_redbase.Table.Schema.{LayoutColumn, SchemaLayout, column, compile_schema}
use rs_redbase.Table.Schema.Offsets.{compile_schema-LayoutOf}
use rs_redbase.Table.Codec.{encode_row}
use rs_redbase.Table.Codec.Encoded.{cell, cells}
use rs_redbase.Table.Codec.RoundTrip.{
  IsStorable, AreStorable, encoded_cells, decode_record-encode_row,
}
use rs_redbase.Table.Compile.{
  field_of_type, scan_field, scan_value, scan_value_as, same_column_type, is_plain, is_comparable,
  are_comparable, compile_expr, compile_exprs,
}
use rs_redbase.Table.Compile.Padding.{compare_bytes-padded}
use rs_redbase.Table.Compile.Valid.{scan_char_inv, compile_expr-valid}
use rs_redbase.Table.Compile.Eval.{
  eval, eval_all, eval_any, CellAt, read_number, plain_ends, word-u32, find_column-CellAt,
}

order-constant :
    (c : LayoutColumn) (o : ℕ) (t : ColumnType) (v w : Value) (sv : ScanValue)
    → IsStorable t v
    → is_plain w ≡ true
    → scan_value_as c t w ≡ ok sv
    → order_values (read_as (field_of_type o t).field_type (cell t v)) sv ≡ compare_values v w
unfolding compare_values
order-constant c o ColumnType.int32 (Value.int32 n) (Value.int32 m) sv s plain h =
    rw (← ok_injective h) (ap (λ z. compare_ℤ z m) (read_number n s))
order-constant c o ColumnType.float32 (Value.float32 n) (Value.float32 m) sv s plain h =
    rw (← ok_injective h) (ap (λ z. total_cmp z m) (word-u32 n s))
order-constant c o (ColumnType.char len) (Value.char a) (Value.char b) sv s plain h =
    let inv = scan_char_inv c len b sv h in
    rw (← inv.1) (compare_bytes-padded len a b s.2 (plain_ends b (ground arith)) s.0 inv.0)
order-constant c o ColumnType.int32 (Value.int32 n) _ sv s plain h = cc
order-constant c o ColumnType.float32 (Value.float32 n) _ sv s plain h = cc
order-constant c o (ColumnType.char len) (Value.char a) _ sv s plain h = cc
order-constant c o ColumnType.int32 _ w sv s plain h = absurd s
order-constant c o ColumnType.float32 _ w sv s plain h = absurd s
order-constant c o (ColumnType.char len) _ w sv s plain h = absurd s

order-columns :
    (o p : ℕ) (s t : ColumnType) (v w : Value)
    → same_column_type s t ≡ true
    → IsStorable s v
    → IsStorable t w
    → order_values
        (read_as (field_of_type o s).field_type (cell s v))
        (read_as (field_of_type p t).field_type (cell t w))
      ≡ compare_values v w
unfolding compare_values
order-columns o p ColumnType.int32 ColumnType.int32 (Value.int32 n) (Value.int32 m) e hv hw =
    ap₂ compare_ℤ (read_number n hv) (read_number m hw)
order-columns o p ColumnType.float32 ColumnType.float32 (Value.float32 n) (Value.float32 m) e hv
      hw =
    ap₂ total_cmp (word-u32 n hv) (word-u32 m hw)
order-columns o p (ColumnType.char k) (ColumnType.char l) (Value.char a) (Value.char b) e hv hw =
    let same : k ≡ l = ground arith in
    rw (← same) (compare_bytes-padded k a b hv.2 hw.2 hv.0 (omega arith))
order-columns o p ColumnType.int32 _ v w e hv hw = ground arith
order-columns o p ColumnType.float32 _ v w e hv hw = ground arith
order-columns o p (ColumnType.char k) _ v w e hv hw = ground arith

field_value-of_bytes :
    (o : ℕ) (t : ColumnType) (row b : Bytes)
    → take (fixed_len t) (drop o row) ≡ b
    → field_value (field_of_type o t) row ≡ read_as (field_of_type o t).field_type b
field_value-of_bytes o ColumnType.int32 row b h = ap (read_as ScanFieldType.int32) h
field_value-of_bytes o ColumnType.float32 row b h = ap (read_as ScanFieldType.float32) h
field_value-of_bytes o (ColumnType.char len) row b h = ap (read_as ScanFieldType.bytes) h

module _ (schema : TableSchema) (layout : SchemaLayout)
    (compiled : compile_schema schema ≡ ok layout) (values : List Value)
    (storable : AreStorable layout.columns values) where
  column-CellAt :
      (name : Text) (c : LayoutColumn)
      → column layout name ≡ ok c
      → CellAt layout.columns values (cells layout.columns values) name c
  unfolding column
  column-CellAt name c found =
      find_column-CellAt layout.columns values [] 0 layout.record_size name c
        (compile_schema-LayoutOf schema layout compiled).columns.packed refl storable (ground arith)

  cmp_value-holds :
      (name : Text) (op : ScanCompOp) (value : Value) (f : LogicFilter)
      → compile_expr layout (Expr.cmp_value name op value) ≡ ok f
      → is_plain value ≡ true
      → holds f (cells layout.columns values)
        ≡ eval layout.columns values (Expr.cmp_value name op value)
  unfolding compile_expr scan_field scan_value holds clause_holds eval
  cmp_value-holds name op value f h plain =
      let (c, found, h1) = bind_succeeds (column layout name) _ h in
      let (sv, scanned, h2) = bind_succeeds (scan_value_as c c.column_type value) _ h1 in
      let at = column-CellAt name c found in
      rw (← ok_injective h2, at.held)
        (ap (λ o. compare_ordering o op)
          (ap (λ x. order_values x sv)
              (field_value-of_bytes c.offset c.column_type (cells layout.columns values)
                (cell c.column_type at.value) at.bytes)
            ∙ order-constant c c.offset c.column_type at.value value sv at.storable plain scanned))

  cmp_columns-holds :
      (lhs : Text) (op : ScanCompOp) (rhs : Text) (f : LogicFilter)
      → compile_expr layout (Expr.cmp_columns lhs op rhs) ≡ ok f
      → is_comparable layout (Expr.cmp_columns lhs op rhs) ≡ true
      → holds f (cells layout.columns values)
        ≡ eval layout.columns values (Expr.cmp_columns lhs op rhs)
  unfolding compile_expr scan_field holds clause_holds eval is_comparable
  cmp_columns-holds lhs op rhs f h k =
      let (l, left, h1) = bind_succeeds (column layout lhs) _ h in
      let (r, right, h2) = bind_succeeds (column layout rhs) _ h1 in
      let a = column-CellAt lhs l left in
      let b = column-CellAt rhs r right in
      let same : same_column_type l.column_type r.column_type ≡ true = ground arith in
      rw (← ok_injective h2, a.held, b.held)
        (ap (λ o. compare_ordering o op)
          (ap₂ order_values
              (field_value-of_bytes l.offset l.column_type (cells layout.columns values)
                (cell l.column_type a.value) a.bytes)
              (field_value-of_bytes r.offset r.column_type (cells layout.columns values)
                (cell r.column_type b.value) b.bytes)
            ∙ order-columns l.offset r.offset l.column_type r.column_type a.value b.value same
                a.storable b.storable))

  and_node-holds :
      (fs : LogicFilters) (f : LogicFilter) (d : Bytes)
      → map_err record_error (and_node fs) ≡ ok f
      → holds f d ≡ all_hold fs d
  unfolding and_node holds
  and_node-holds LogicFilters.nil f d h = cc
  and_node-holds (LogicFilters.cons g gs) f d h = rw (← ok_injective h)

  or_node-holds :
      (fs : LogicFilters) (f : LogicFilter) (d : Bytes)
      → map_err record_error (or_node fs) ≡ ok f
      → holds f d ≡ any_holds fs d
  unfolding or_node holds
  or_node-holds LogicFilters.nil f d h = cc
  or_node-holds (LogicFilters.cons g gs) f d h = rw (← ok_injective h)

  mutual
    unfolding compile_expr holds eval is_comparable

    expr-holds :
        (e : Expr) (f : LogicFilter)
        → compile_expr layout e ≡ ok f
        → is_comparable layout e ≡ true
        → holds f (cells layout.columns values) ≡ eval layout.columns values e
    expr-holds (Expr.cmp_value name op value) f h k = cmp_value-holds name op value f h k
    expr-holds (Expr.cmp_columns lhs op rhs) f h k = cmp_columns-holds lhs op rhs f h k
    expr-holds (Expr.and es) f h k =
        let (fs, run, node) = bind_succeeds (compile_exprs layout es) _ h in
        and_node-holds fs f (cells layout.columns values) node ∙ (exprs-hold es fs run k).0
    expr-holds (Expr.or es) f h k =
        let (fs, run, node) = bind_succeeds (compile_exprs layout es) _ h in
        or_node-holds fs f (cells layout.columns values) node ∙ (exprs-hold es fs run k).1
    expr-holds (Expr.not e) f h k =
        let (g, run, node) = bind_succeeds (compile_expr layout e) _ h in
        rw (← ok_injective node) (ap not (expr-holds e g run k))

    exprs-hold :
        (es : Exprs) (fs : LogicFilters)
        → compile_exprs layout es ≡ ok fs
        → are_comparable layout es ≡ true
        → (all_hold fs (cells layout.columns values) ≡ eval_all layout.columns values es)
          × (any_holds fs (cells layout.columns values) ≡ eval_any layout.columns values es)
    exprs-hold Exprs.nil fs h k = rw (← ok_injective h) (refl, refl)
    exprs-hold (Exprs.cons e es) fs h k =
        let (g, run, h1) = bind_succeeds (compile_expr layout e) _ h in
        let (gs, rest, h2) = bind_succeeds (compile_exprs layout es) _ h1 in
        let first = expr-holds e g run (ground arith) in
        let others = exprs-hold es gs rest (ground arith) in
        rw (← ok_injective h2) (ap₂ ◌&&◌ first others.0, ap₂ ◌||◌ first others.1)

-- A WHERE expression that compiles, with columns compared at one type and constants that end in
-- no NUL, evaluates without error on every stored row: on the bytes that a row of storable values
-- encodes to, the compiled filter returns what the expression says of the row's values, field by
-- field and with AND, OR and NOT.
pub matches-compile_expr :
    (schema : TableSchema) (layout : SchemaLayout) (values : List Value) (bytes : Bytes) (e : Expr)
    (f : LogicFilter)
    → compile_schema schema ≡ ok layout
    → AreStorable layout.columns values
    → encode_row layout values ≡ ok bytes
    → is_comparable layout e ≡ true
    → compile_expr layout e ≡ ok f
    → matches f bytes ≡ ok (eval layout.columns values e)
matches-compile_expr schema layout values bytes e f compiled storable encoded comparable h =
    let (stored, run, (size, decoded)) =
      decode_record-encode_row schema layout values compiled storable in
    let same : stored ≡ bytes = ok_injective (sym run ∙ encoded) in
    let wide : length bytes ≡ layout.record_size = rw (← same) size in
    let valid : validate_for_record f (length bytes) ≡ ok tt =
      rw wide (compile_expr-valid schema layout compiled e f h comparable) in
    let plain : cells layout.columns values ≡ bytes =
      encoded_cells schema layout values bytes compiled storable encoded in
    logic-eq f bytes
    ∙ rw (valid, ← plain)
        (ap ok (expr-holds schema layout compiled values storable e f h comparable))
