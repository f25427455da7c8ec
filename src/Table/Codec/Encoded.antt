-- ===== src/Table/Codec/Encoded.antt =====
-- `encode_row` of table/mod.rs: the bytes of a row, field by field.
use mathlib.Core.List.{append_assoc}
use rs_redbase.Prelude.{
  ℕ, zero, suc, ◌+◌, ◌-◌, ◌≤◌, ◌≡◌, refl, ◌∙◌, ap, List, [], ◌∷◌, ◌++◌, arith, ltb, ◌==◌, not,
  length, replicate, length-append, length-replicate, Bool-cases, inl, inr, Result, ok, err, ◌>>=◌,
  ◌>>◌, if◌then◌else◌, le→leb, first_passed, bind_checked,
}
use rs_redbase.Prelude.Bytes.{
  Bytes, copy_into_exact, fill_range, i32_to_le_bytes, u32_to_le_bytes, length-i32_to_le_bytes,
  length-u32_to_le_bytes,
}
use rs_redbase.Table.Types.{
  ColumnType, Value, TableError, TableSchema, fixed_len, column_kind_name, value_kind_name,
  invalid_schema, value_count_mismatch, value_type_mismatch,
}
use rs_redbase.Table.Schema.{LayoutColumn, SchemaLayout, compile_schema}
use rs_redbase.Table.Schema.Offsets.{IsPacked, packed-le, compile_schema-LayoutOf}
use rs_redbase.Table.Codec.{encode_as, encode_value, encode_values, encode_row}

pub replicate-add {ℓ} :
    {A : Type ℓ} (m n : ℕ) (a : A) → replicate (m + n) a ≡ replicate m a ++ replicate n a
replicate-add zero n a = ap (λ k. replicate k a) (omega arith)
replicate-add (suc m) n a =
    ap (λ k. replicate k a) (let e : suc m + n ≡ suc (m + n) = omega arith in e)
    ∙ ap (λ t. a ∷ t) (replicate-add m n a)

abbrev pub zeros : ℕ → Bytes
zeros n = replicate n 0

pub length-zeros : (n : ℕ) → length (zeros n) ≡ n
length-zeros n = length-replicate n 0

-- The bytes of one field.
abbrev pub cell : ColumnType → Value → Bytes
cell ColumnType.int32 (Value.int32 number) = i32_to_le_bytes number
cell ColumnType.float32 (Value.float32 number) = u32_to_le_bytes number
cell (ColumnType.char len) (Value.char text) = text ++ zeros (len - length text)
cell expected actual = []

-- The error that a value meets at its column, or none.
abbrev pub check : LayoutColumn → ColumnType → Value → Result TableError (Unit {0})
check column ColumnType.int32 (Value.int32 number) = ok tt
check column ColumnType.float32 (Value.float32 number) = ok tt
check column (ColumnType.char len) (Value.char text) =
    if ltb len (length text)
    then err (invalid_schema "char values must not exceed the declared length")
    else ok tt
check column expected actual =
    err (value_type_mismatch column.name (column_kind_name expected) (value_kind_name actual))

abbrev pub check_all : List LayoutColumn → List Value → Result TableError (Unit {0})
check_all [] values = ok tt
check_all (c ∷ cs) [] = ok tt
check_all (c ∷ cs) (v ∷ vs) = check c c.column_type v >> check_all cs vs

abbrev pub cells : List LayoutColumn → List Value → Bytes
cells [] values = []
cells (c ∷ cs) [] = []
cells (c ∷ cs) (v ∷ vs) = cell c.column_type v ++ cells cs vs

module _ (before old rest : Bytes) (c : LayoutColumn) (at : c.offset ≡ length before) where
  encode_char :
      (len : ℕ) (text : Bytes)
      → length old ≡ len
      → encode_as (before ++ (old ++ rest)) c (ColumnType.char len) (Value.char text) ≡ (
          check c (ColumnType.char len) (Value.char text) >>= λ _.
          ok (before ++ (cell (ColumnType.char len) (Value.char text) ++ rest)))
  unfolding encode_as fill_range
  encode_char len text h = elim (Bool-cases (ltb len (length text))) [
    | inl long ↦ rw long
    | inr fits ↦
        let pad = zeros (len - length text) in
        let blank = zeros (length text) in
        let short : length text ≤ len = ground arith in
        let split : zeros len ≡ blank ++ pad =
          ap zeros (let e : len ≡ length text + (len - length text) = omega arith in e)
          ∙ replicate-add (length text) (len - length text) 0 in
        let width : c.offset + len - c.offset ≡ len = omega arith in
        rw (
          fits,
          le→leb c.offset (c.offset + len) (omega arith),
          width,
          copy_into_exact {E = TableError} before old (zeros len) rest c.offset at
              (omega (arith, length-zeros len)),
          split,
          append_assoc blank pad rest,
          copy_into_exact {E = TableError} before blank text (pad ++ rest) c.offset at
              (length-zeros (length text)),
          append_assoc text pad rest,
        )
  ]

  encode_as-eq :
      (t : ColumnType) (v : Value)
      → length old ≡ fixed_len t
      → encode_as (before ++ (old ++ rest)) c t v
        ≡ (check c t v >>= λ _. ok (before ++ (cell t v ++ rest)))
  unfolding encode_as
  encode_as-eq ColumnType.int32 (Value.int32 n) h =
      copy_into_exact before old (i32_to_le_bytes n) rest c.offset at
        (omega (arith, length-i32_to_le_bytes n))
  encode_as-eq ColumnType.float32 (Value.float32 n) h =
      copy_into_exact before old (u32_to_le_bytes n) rest c.offset at
        (omega (arith, length-u32_to_le_bytes n))
  encode_as-eq (ColumnType.char len) (Value.char text) h = encode_char len text h
  encode_as-eq ColumnType.int32 _ h = refl
  encode_as-eq ColumnType.float32 _ h = refl
  encode_as-eq (ColumnType.char len) _ h = refl

-- A field that passes has its column's length.
pub length-cell :
    (c : LayoutColumn) (t : ColumnType) (v : Value)
    → check c t v ≡ ok tt
    → length (cell t v) ≡ fixed_len t
length-cell c ColumnType.int32 (Value.int32 n) h = length-i32_to_le_bytes n
length-cell c ColumnType.float32 (Value.float32 n) h = length-u32_to_le_bytes n
length-cell c (ColumnType.char len) (Value.char text) h =
    let short : length text ≤ len = ground arith in
    omega (arith, length-append text (zeros (len - length text)), length-zeros (len - length text))
length-cell c ColumnType.int32 _ h = cc
length-cell c ColumnType.float32 _ h = cc
length-cell c (ColumnType.char len) _ h = cc

encode_values-eq :
    (cs : List LayoutColumn) (vs : List Value) (before : Bytes) (at size : ℕ)
    → IsPacked at cs size
    → at ≡ length before
    → length vs ≡ length cs
    → encode_values (before ++ zeros (size - at)) cs vs
      ≡ (check_all cs vs >>= λ _. ok (before ++ cells cs vs))
unfolding encode_values encode_value
encode_values-eq [] vs before at size packed h k =
    ap (λ n. ok (before ++ zeros n)) (let e : size - at ≡ 0 = omega arith in e)
encode_values-eq (c ∷ cs) [] before at size packed h k = absurd (omega arith)
encode_values-eq (c ∷ cs) (v ∷ vs) before at size packed h k =
    let len = fixed_len c.column_type in
    let field = cell c.column_type v in
    let rest = zeros (size - (at + len)) in
    let room : at + len ≤ size = packed-le cs (at + len) size packed.2 in
    let split : zeros (size - at) ≡ zeros len ++ rest =
      ap zeros (let e : size - at ≡ len + (size - (at + len)) = omega arith in e)
      ∙ replicate-add len (size - (at + len)) 0 in
    rw split (
      bind_checked (check c c.column_type v) (check_all cs vs) _ _ (before ++ (field ++ rest))
        (before ++ (field ++ cells cs vs))
        (encode_as-eq before (zeros len) rest c (packed.0 ∙ h) c.column_type v (length-zeros len))
        (λ passed.
          let wide = length-cell c c.column_type v passed in
          rw (← append_assoc before field rest, ← append_assoc before field (cells cs vs))
            (encode_values-eq cs vs (before ++ field) (at + len) size packed.2
              (omega (arith, length-append before field)) (omega arith))))

pub length-cells :
    (cs : List LayoutColumn) (vs : List Value) (at size : ℕ)
    → IsPacked at cs size
    → length vs ≡ length cs
    → check_all cs vs ≡ ok tt
    → at + length (cells cs vs) ≡ size
length-cells [] vs at size packed k h = omega arith
length-cells (c ∷ cs) [] at size packed k h = absurd (omega arith)
length-cells (c ∷ cs) (v ∷ vs) at size packed k h =
    let (now, later) = first_passed (check c c.column_type v) (check_all cs vs) h in
    let wide = length-cell c c.column_type v now in
    let tail =
      length-cells cs vs (at + fixed_len c.column_type) size packed.2 (omega arith) later in
    omega (arith, length-append (cell c.column_type v) (cells cs vs))

-- Encoding a row by a compiled layout never panics: it fails on a wrong number of values, then on
-- the first value that does not fit its column, and otherwise returns the fields side by side.
pub encode_row-eq :
    (schema : TableSchema) (layout : SchemaLayout) (values : List Value)
    → compile_schema schema ≡ ok layout
    → encode_row layout values ≡ (
        if not (length values == length layout.columns)
        then err (value_count_mismatch (length layout.columns) (length values))
        else (check_all layout.columns values >>= λ _. ok (cells layout.columns values)))
unfolding encode_row
encode_row-eq schema layout values compiled =
    elim (Bool-cases (length values == length layout.columns)) [
      | inl same ↦
          let all : layout.record_size - 0 ≡ layout.record_size = omega arith in
          rw same (
            rw all at (
              encode_values-eq layout.columns values [] 0 layout.record_size
                (compile_schema-LayoutOf schema layout compiled).columns.packed refl
                (ground arith)))
      | inr differs ↦ rw differs
    ]
