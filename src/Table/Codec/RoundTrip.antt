-- ===== src/Table/Codec/RoundTrip.antt =====
-- `encode_row` and `decode_record` of table/mod.rs together.
use mathlib.Core.List.{append_assoc}
use rs_redbase.Prelude.{
  ℕ, zero, suc, ◌+◌, ◌-◌, ◌≤◌, ◌<◌, ◌≡◌, ◌≢◌, refl, sym, ◌∙◌, ap, true, List, [], ◌∷◌, ◌++◌, arith,
  none, some, length, length-append, take_exact, ok, ok_injective, Returns,
}
use rs_redbase.Prelude.Int.{IsI32}
use rs_redbase.Prelude.Bytes.{
  Bytes, slice_exact, i32_to_le_bytes, u32_to_le_bytes, i32_from_le_bytes-to, u32_from_le_bytes-to,
  length-i32_to_le_bytes, length-u32_to_le_bytes,
}
use rs_redbase.Prelude.Text.{is_utf8}
use rs_redbase.Table.Types.{ColumnType, Value, TableError, TableSchema, fixed_len}
use rs_redbase.Table.Schema.{LayoutColumn, SchemaLayout, compile_schema}
use rs_redbase.Table.Schema.Offsets.{IsPacked, compile_schema-LayoutOf}
use rs_redbase.Table.Codec.{
  encode_row, last_nonzero, trim_zeros, decode_as, decode_value, decode_columns, decode_record,
}
use rs_redbase.Table.Codec.Encoded.{
  cell, check, check_all, cells, zeros, length-cell, length-cells, encode_row-eq,
}

-- No NUL byte at the end.
abbrev pub EndsNonzero : Bytes → Type 0
EndsNonzero [] = Unit
EndsNonzero (b ∷ []) = b ≢ 0
EndsNonzero (b ∷ c ∷ bs) = EndsNonzero (c ∷ bs)

-- The values that a column can hold: in range, and text that fits and does not end in NUL.
abbrev pub IsStorable : ColumnType → Value → Type 0
IsStorable ColumnType.int32 (Value.int32 number) = IsI32 number
IsStorable ColumnType.float32 (Value.float32 bits) = bits < 4294967296
IsStorable (ColumnType.char len) (Value.char text) =
    (length text ≤ len) × (is_utf8 text ≡ true) × EndsNonzero text
IsStorable _ _ = ⊥

abbrev pub AreStorable : List LayoutColumn → List Value → Type 0
AreStorable [] [] = Unit
AreStorable (c ∷ cs) (v ∷ vs) = IsStorable c.column_type v × AreStorable cs vs
AreStorable _ _ = ⊥

last_nonzero-zeros : (n : ℕ) → last_nonzero (zeros n) ≡ none
unfolding last_nonzero
last_nonzero-zeros zero = refl
last_nonzero-zeros (suc n) = ground (arith, last_nonzero-zeros n)

last_nonzero-padded :
    (b : ℕ) (bs : Bytes) (n : ℕ)
    → EndsNonzero (b ∷ bs)
    → last_nonzero ((b ∷ bs) ++ zeros n) ≡ some (length bs)
unfolding last_nonzero
last_nonzero-padded b [] n h = ground (arith, last_nonzero-zeros n)
last_nonzero-padded b (c ∷ bs) n h = rw (last_nonzero-padded c bs n h)

trim_zeros-padded : (text : Bytes) (n : ℕ) → EndsNonzero text → trim_zeros (text ++ zeros n) ≡ text
unfolding trim_zeros
trim_zeros-padded [] n h = rw (last_nonzero-zeros n, trim_zeros)
trim_zeros-padded (b ∷ bs) n h =
    rw (last_nonzero-padded b bs n h, trim_zeros) (take_exact (b ∷ bs) (zeros n))

decode_as-cell :
    (before rest : Bytes) (c : LayoutColumn) (t : ColumnType) (v : Value) (start : ℕ)
    → start ≡ length before
    → check c t v ≡ ok tt
    → IsStorable t v
    → decode_as (before ++ (cell t v ++ rest)) start t ≡ ok v
unfolding decode_as
decode_as-cell before rest c ColumnType.int32 (Value.int32 n) start at passed h = rw (
  slice_exact {E = TableError} before (i32_to_le_bytes n) rest start (start + 4) at
      (omega (arith, length-i32_to_le_bytes n)),
  i32_from_le_bytes-to {E = TableError} n h,
)
decode_as-cell before rest c ColumnType.float32 (Value.float32 n) start at passed h = rw (
  slice_exact {E = TableError} before (u32_to_le_bytes n) rest start (start + 4) at
      (omega (arith, length-u32_to_le_bytes n)),
  u32_from_le_bytes-to {E = TableError} n h,
)
decode_as-cell before rest c (ColumnType.char len) (Value.char text) start at passed h =
    let field = text ++ zeros (len - length text) in
    rw (
      slice_exact {E = TableError} before field rest start (start + len) at
          (omega (arith, length-cell c (ColumnType.char len) (Value.char text) passed)),
      trim_zeros-padded text (len - length text) h.2,
      h.1,
    )
decode_as-cell before rest c ColumnType.int32 _ start at passed h = absurd h
decode_as-cell before rest c ColumnType.float32 _ start at passed h = absurd h
decode_as-cell before rest c (ColumnType.char len) _ start at passed h = absurd h

pub check_of_IsStorable :
    (c : LayoutColumn) (t : ColumnType) (v : Value) → IsStorable t v → check c t v ≡ ok tt
check_of_IsStorable c ColumnType.int32 (Value.int32 n) h = refl
check_of_IsStorable c ColumnType.float32 (Value.float32 n) h = refl
check_of_IsStorable c (ColumnType.char len) (Value.char text) h = ground arith
check_of_IsStorable c ColumnType.int32 _ h = absurd h
check_of_IsStorable c ColumnType.float32 _ h = absurd h
check_of_IsStorable c (ColumnType.char len) _ h = absurd h

check_all_of_AreStorable :
    (cs : List LayoutColumn) (vs : List Value)
    → AreStorable cs vs
    → (length vs ≡ length cs) × (check_all cs vs ≡ ok tt)
check_all_of_AreStorable [] [] h = (refl, refl)
check_all_of_AreStorable [] (v ∷ vs) h = absurd h
check_all_of_AreStorable (c ∷ cs) [] h = absurd h
check_all_of_AreStorable (c ∷ cs) (v ∷ vs) h =
    let (wide, passed) = check_all_of_AreStorable cs vs h.1 in
    (ap suc wide, rw (check_of_IsStorable c c.column_type v h.0) passed)

decode_columns-cells :
    (cs : List LayoutColumn) (vs : List Value) (before : Bytes) (at size : ℕ)
    → IsPacked at cs size
    → at ≡ length before
    → AreStorable cs vs
    → decode_columns (before ++ cells cs vs) cs ≡ ok vs
unfolding decode_columns decode_value
decode_columns-cells [] [] before at size packed h s = refl
decode_columns-cells [] (v ∷ vs) before at size packed h s = absurd s
decode_columns-cells (c ∷ cs) [] before at size packed h s = absurd s
decode_columns-cells (c ∷ cs) (v ∷ vs) before at size packed h s =
    let field = cell c.column_type v in
    let passed = check_of_IsStorable c c.column_type v s.0 in
    let tail : decode_columns (before ++ (field ++ cells cs vs)) cs ≡ ok vs =
      ap (λ b. decode_columns b cs) (sym (append_assoc before field (cells cs vs)))
      ∙ decode_columns-cells cs vs (before ++ field) (at + fixed_len c.column_type) size packed.2
          (omega (arith, length-append before field, length-cell c c.column_type v passed)) s.1 in
    rw (
      decode_as-cell before (cells cs vs) c c.column_type v c.offset (packed.0 ∙ h) passed s.0,
      tail,
    )

-- Storable values encode to their cells.
pub encoded_cells :
    (schema : TableSchema) (layout : SchemaLayout) (values : List Value) (bytes : Bytes)
    → compile_schema schema ≡ ok layout
    → AreStorable layout.columns values
    → encode_row layout values ≡ ok bytes
    → cells layout.columns values ≡ bytes
encoded_cells schema layout values bytes compiled h encoded =
    let (wide, passed) = check_all_of_AreStorable layout.columns values h in
    ok_injective
      (sym (encode_row-eq schema layout values compiled ∙ rw passed (ground arith)) ∙ encoded)

-- A row of storable values encodes under a compiled layout, to a record of the layout's size, which
-- decodes to the same row. (Storable: numbers in range; UTF-8 text that fits and ends in no NUL.)
pub decode_record-encode_row :
    (schema : TableSchema) (layout : SchemaLayout) (values : List Value)
    → compile_schema schema ≡ ok layout
    → AreStorable layout.columns values
    → Returns
        (encode_row layout values)
        λ bytes. (length bytes ≡ layout.record_size) × (decode_record layout bytes ≡ ok values)
unfolding decode_record
decode_record-encode_row schema layout values compiled h =
    let packed = (compile_schema-LayoutOf schema layout compiled).columns.packed in
    let (wide, passed) = check_all_of_AreStorable layout.columns values h in
    (
      cells layout.columns values,
      encode_row-eq schema layout values compiled ∙ rw passed (ground arith),
      (
        omega (arith, length-cells layout.columns values 0 layout.record_size packed wide passed),
        decode_columns-cells layout.columns values [] 0 layout.record_size packed refl h,
      ),
    )
