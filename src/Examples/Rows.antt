-- ===== src/Examples/Rows.antt =====
-- Schemas, rows and expressions: the table that the program's own tests use.
use rs_redbase.Prelude.{
  ℕ, ◌≡◌, refl, List, [], ◌∷◌, arith, ok, Returns, length, String, true, ◌>>=◌,
}
use Prim.Native.Char.{code}
use rs_redbase.Prelude.Int.{pos, negsuc}
use rs_redbase.Prelude.Bytes.{
  Bytes, u32_to_le_bytes, i32_to_le_bytes, u32_from_le_bytes, i32_from_le_bytes, slice, copy_into,
  fill_range, compare_bytes, eq_bytes,
}
use rs_redbase.Prelude.Text.{Text, contains, is_utf8}
use rs_redbase.Record.Types.{ScanCompOp, ScanValue, compare_ordering}
use rs_redbase.Record.Field
use rs_redbase.Record.Clause
use rs_redbase.Record.Logic
use rs_redbase.Record.Logic.{LogicFilter, LogicFilters, matches}
use rs_redbase.Table.Types.{ColumnType, TableSchema, Value, Expr, Exprs}
use rs_redbase.Table.Schema.{
  SchemaLayout, column, find_column, validate_identifier, compile_columns, compile_schema,
}
use rs_redbase.Table.Schema.Offsets.{
  LayoutOf, compile_schema-LayoutOf, compile_schema_total, FoundAt, column-FoundAt,
}
use rs_redbase.Table.Codec.{
  encode_as, encode_value, encode_values, encode_row, last_nonzero, trim_zeros, decode_as,
  decode_value, decode_columns, decode_record,
}
use rs_redbase.Table.Codec.Encoded.{encode_row-eq, check_all, cells}
use rs_redbase.Table.Codec.RoundTrip.{AreStorable, decode_record-encode_row}
use rs_redbase.Table.Compile.{scan_field, scan_value, compile_expr, is_comparable}
use rs_redbase.Table.Compile.Eval.{eval, value_at}
use rs_redbase.Table.Compile.Meaning.{matches-compile_expr}

-- The code points of an ASCII text.
abbrev codes : String → List ℕ
codes String.[] = []
codes (String.◌∷◌ c s) = code c ∷ codes s

abbrev pub text : String → Text
text s = codes s

-- All that a run of this module computes through.
program : Unit {0}
unfolding u32_to_le_bytes i32_to_le_bytes u32_from_le_bytes i32_from_le_bytes slice copy_into
    fill_range compare_bytes eq_bytes contains is_utf8 compare_ordering Field.validate_for_record
    Field.field_bytes Field.compare_field_to_value Field.compare_fields
    Field.validate_value_against_field Clause.validate_for_record Clause.matches
    Logic.validate_for_record Logic.matches Logic.and_node Logic.or_node column find_column
    validate_identifier compile_columns compile_schema encode_as encode_value encode_values
    encode_row last_nonzero trim_zeros decode_as decode_value decode_columns decode_record
    scan_field scan_value compile_expr is_comparable eval value_at
program = tt

abbrev pub student : TableSchema
student = record {
  name = text "student";
  columns =
      record { name = text "id"; column_type = ColumnType.int32 }
      ∷ record { name = text "score"; column_type = ColumnType.float32 }
      ∷ record { name = text "name"; column_type = ColumnType.char 8 }
      ∷ [];
}

abbrev pub student_layout : SchemaLayout
student_layout = record {
  columns =
      record { name = text "id"; column_type = ColumnType.int32; offset = 0 }
      ∷ record { name = text "score"; column_type = ColumnType.float32; offset = 4 }
      ∷ record { name = text "name"; column_type = ColumnType.char 8; offset = 8 }
      ∷ [];
  record_size = 16;
}

pub student_compiles : compile_schema student ≡ ok student_layout
unfolding program
student_compiles = refl

-- -2, 1.5f32 and "alice".
abbrev pub alice : List Value
alice = Value.int32 (negsuc 1) ∷ Value.float32 0x3fc0_0000 ∷ Value.char (text "alice") ∷ []

abbrev alice_bytes : Bytes
alice_bytes = 254 ∷ 255 ∷ 255 ∷ 255 ∷ 0 ∷ 0 ∷ 192 ∷ 63 ∷ 97 ∷ 108 ∷ 105 ∷ 99 ∷ 101 ∷ 0 ∷ 0 ∷ 0 ∷ []

alice_encodes : encode_row student_layout alice ≡ ok alice_bytes
unfolding program
alice_encodes = refl

alice_decodes : decode_record student_layout alice_bytes ≡ ok alice
unfolding program
alice_decodes = refl

alice_utf8 : is_utf8 (text "alice") ≡ true
unfolding program
alice_utf8 = refl

compile_schema-LayoutOf_example : LayoutOf student student_layout
compile_schema-LayoutOf_example = compile_schema-LayoutOf student student_layout student_compiles

student_named : validate_identifier (text "student") ≡ ok tt
unfolding program
student_named = refl

compile_schema_total_example : Returns (compile_schema student) (λ layout. layout.record_size ≡ 16)
unfolding program
compile_schema_total_example =
    compile_schema_total student refl (λ e. cc (e)) (refl, (refl, (refl, tt)))
      (refl, (refl, (refl, tt))) (omega arith) (omega arith)

column-FoundAt_example :
    FoundAt 16
      (text "name")
      (record { name = text "name"; column_type = ColumnType.char 8; offset = 8 })
unfolding program
column-FoundAt_example =
    column-FoundAt student student_layout (text "name")
      (record { name = text "name"; column_type = ColumnType.char 8; offset = 8 }) student_compiles
      refl

encode_row-eq_example :
    encode_row student_layout alice
    ≡ (check_all student_layout.columns alice >>= λ _. ok (cells student_layout.columns alice))
encode_row-eq_example = encode_row-eq student student_layout alice student_compiles

alice_storable : AreStorable student_layout.columns alice
alice_storable = (omega arith, (omega arith, ((omega arith, alice_utf8, omega arith), tt)))

decode_record-encode_row_example :
    Returns
      (encode_row student_layout alice)
      λ bytes. (length bytes ≡ 16) × (decode_record student_layout bytes ≡ ok alice)
decode_record-encode_row_example =
    decode_record-encode_row student student_layout alice student_compiles alice_storable

-- id < 0 AND NOT name = "bob"
abbrev where_expr : Expr
where_expr = Expr.and (
    Exprs.cons (Expr.cmp_value (text "id") ScanCompOp.lt (Value.int32 (pos 0))) (
      Exprs.cons (Expr.not (Expr.cmp_value (text "name") ScanCompOp.eq (Value.char (text "bob"))))
        Exprs.nil))

abbrev where_filter : LogicFilter
where_filter = LogicFilter.and (
    LogicFilters.cons
      (LogicFilter.clause
        (Clause.field_equals_value (Field.int32 0) ScanCompOp.lt (ScanValue.int32 (pos 0))))
      (LogicFilters.cons
        (LogicFilter.not (
          LogicFilter.clause (
            Clause.field_equals_value (Field.bytes 8 8) ScanCompOp.eq
              (ScanValue.bytes (98 ∷ 111 ∷ 98 ∷ 0 ∷ 0 ∷ 0 ∷ 0 ∷ 0 ∷ [])))))
        LogicFilters.nil))

where_compiles : compile_expr student_layout where_expr ≡ ok where_filter
unfolding program
where_compiles = refl

where_comparable : is_comparable student_layout where_expr ≡ true
unfolding program
where_comparable = refl

matches-compile_expr_example :
    matches where_filter alice_bytes ≡ ok (eval student_layout.columns alice where_expr)
matches-compile_expr_example =
    matches-compile_expr student student_layout alice alice_bytes where_expr where_filter
      student_compiles alice_storable alice_encodes where_comparable where_compiles

where_matches : matches where_filter alice_bytes ≡ ok true
unfolding program
where_matches = refl
