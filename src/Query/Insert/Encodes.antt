-- ===== src/Query/Insert/Encodes.antt =====
-- `normalize_insert_input` of query/mod.rs and `encode_row` of table/mod.rs together.
use rs_redbase.Prelude.{
  suc, ◌<◌, ltb, ◌≡◌, ◌⊎◌, refl, ◌∙◌, true, ◌==◌, List, [], ◌∷◌, map, length, arith, Bool-cases,
  inl, inr, ok, err, bind_succeeds, ok_injective, ap, ==_refl,
}
use rs_redbase.Prelude.Text.{Text}
use rs_redbase.Table.Types.{
  ColumnType, ColumnSchema, TableSchema, Value, TableError, invalid_schema,
}
use rs_redbase.Table.Schema.{LayoutColumn, SchemaLayout, compile_schema}
use rs_redbase.Table.Schema.Offsets.{declared, compile_schema-LayoutOf}
use rs_redbase.Table.Codec.{encode_row}
use rs_redbase.Table.Codec.Encoded.{check, check_all, cells, encode_row-eq}
use rs_redbase.Query.Types.{NamedValue, InsertInput}
use rs_redbase.Query.Columns.{value_matches_type}
use rs_redbase.Query.Typed.{AreTyped}
use rs_redbase.Query.Insert.{validate_types, validate_row_types, normalize_insert_input}
use rs_redbase.Query.Insert.Assigned.{Assigned}
use rs_redbase.Query.Insert.Ordered.{normalize_named_insert_iff}

Assigned-AreTyped :
    (es : List NamedValue) (cs : List ColumnSchema) (vs : List Value)
    → Assigned es cs vs
    → AreTyped cs vs
Assigned-AreTyped es [] [] h = tt
Assigned-AreTyped es [] (v ∷ vs) h = absurd h
Assigned-AreTyped es (c ∷ cs) [] h = absurd h
Assigned-AreTyped es (c ∷ cs) (v ∷ vs) h = (h.1, Assigned-AreTyped es cs vs h.2)

validate_types-AreTyped :
    (table : Text) (cs : List ColumnSchema) (vs : List Value)
    → length vs ≡ length cs
    → validate_types table cs vs ≡ ok tt
    → AreTyped cs vs
unfolding validate_types
validate_types-AreTyped table [] [] k h = tt
validate_types-AreTyped table [] (v ∷ vs) k h = absurd (omega arith)
validate_types-AreTyped table (c ∷ cs) [] k h = absurd (omega arith)
validate_types-AreTyped table (c ∷ cs) (v ∷ vs) k h =
    (ground arith, validate_types-AreTyped table cs vs (omega arith) (ground arith))

full_row-AreTyped :
    (table : Text) (schema : TableSchema) (vs values : List Value)
    → normalize_insert_input table schema (InsertInput.full_row vs) ≡ ok values
    → AreTyped schema.columns values
unfolding normalize_insert_input validate_row_types
full_row-AreTyped table schema vs values h =
    elim (Bool-cases (length vs == length schema.columns)) [
      | inl same ↦
          let (u, run, e) =
            bind_succeeds (validate_types table schema.columns vs) (λ _. ok vs) {y = values}
              (ground arith) in
          rw (← ok_injective e) (validate_types-AreTyped table schema.columns vs (ground arith) run)
      | inr differs ↦ ground arith
    ]

-- Every accepted insert is a typed row.
normalize_insert_input-AreTyped :
    (table : Text) (schema : TableSchema) (layout : SchemaLayout) (input : InsertInput)
    (values : List Value)
    → compile_schema schema ≡ ok layout
    → normalize_insert_input table schema input ≡ ok values
    → AreTyped schema.columns values
unfolding normalize_insert_input
normalize_insert_input-AreTyped table schema layout (InsertInput.full_row vs) values compiled h =
    full_row-AreTyped table schema vs values h
normalize_insert_input-AreTyped table schema layout (InsertInput.named es) values compiled h =
    Assigned-AreTyped es schema.columns values
      ((normalize_named_insert_iff table schema layout es values compiled).0 h).1

abbrev overlong : TableError
overlong = invalid_schema "char values must not exceed the declared length"

-- A text of more bytes than its column has.
abbrev IsOverlong : ColumnType → Value → Type 0
IsOverlong (ColumnType.char len) (Value.char text) = len < length text
IsOverlong _ _ = ⊥

-- Some text is longer than its column.
abbrev pub HasOverlong : List LayoutColumn → List Value → Type 0
HasOverlong [] values = ⊥
HasOverlong (c ∷ cs) [] = ⊥
HasOverlong (c ∷ cs) (v ∷ vs) = IsOverlong c.column_type v ⊎ HasOverlong cs vs

AreTyped-check :
    (c : LayoutColumn) (t : ColumnType) (v : Value)
    → value_matches_type t v ≡ true
    → ((check c t v ≡ ok tt) × (IsOverlong t v → ⊥))
      ⊎ ((check c t v ≡ err overlong) × IsOverlong t v)
unfolding value_matches_type
AreTyped-check c ColumnType.int32 (Value.int32 n) h = inl (refl, λ l. l)
AreTyped-check c ColumnType.float32 (Value.float32 n) h = inl (refl, λ l. l)
AreTyped-check c (ColumnType.char len) (Value.char text) h =
    elim (Bool-cases (ltb len (length text))) [
      | inl long ↦ inr (ground arith, ground arith)
      | inr fits ↦ inl (ground arith, λ l. absurd (ground arith))
    ]
AreTyped-check c ColumnType.int32 _ h = cc
AreTyped-check c ColumnType.float32 _ h = cc
AreTyped-check c (ColumnType.char len) _ h = cc

AreTyped-check_all :
    (cs : List LayoutColumn) (vs : List Value)
    → AreTyped (map declared cs) vs
    → (length vs ≡ length cs)
      × (((check_all cs vs ≡ ok tt) × (HasOverlong cs vs → ⊥))
          ⊎ ((check_all cs vs ≡ err overlong) × HasOverlong cs vs))
AreTyped-check_all [] [] h = (refl, inl (refl, λ l. l))
AreTyped-check_all [] (v ∷ vs) h = absurd h
AreTyped-check_all (c ∷ cs) [] h = absurd h
AreTyped-check_all (c ∷ cs) (v ∷ vs) h =
    let (wide, later) = AreTyped-check_all cs vs h.1 in
    (
      ap suc wide,
      elim (AreTyped-check c c.column_type v h.0) [
        | inl (passed, short) ↦ rw passed (elim later [
          | inl (all, none_long) ↦
              inl (all, λ l. elim l [ inl here ↦ short here | inr there ↦ none_long there ])
          | inr (refused, long) ↦ inr (refused, inr long)
        ])
        | inr (refused, long) ↦ inr (rw refused refl, inl long)
      ],
    )

-- A row that the planner accepts for a table whose schema compiles is encoded by the record layer
-- as its fields side by side when no text of it has more bytes than its column, and refused as too
-- long when one has; no other error and no panic is left.
pub normalize_insert_input-encodes :
    (table : Text) (schema : TableSchema) (layout : SchemaLayout) (input : InsertInput)
    (values : List Value)
    → compile_schema schema ≡ ok layout
    → normalize_insert_input table schema input ≡ ok values
    → ((encode_row layout values ≡ ok (cells layout.columns values))
        × (HasOverlong layout.columns values → ⊥))
      ⊎ ((encode_row layout values ≡ err overlong) × HasOverlong layout.columns values)
normalize_insert_input-encodes table schema layout input values compiled h =
    let typed = normalize_insert_input-AreTyped table schema layout input values compiled h in
    let same = (compile_schema-LayoutOf schema layout compiled).columns.same in
    let typed' : AreTyped (map declared layout.columns) values = rw same typed in
    let (wide, checks) = AreTyped-check_all layout.columns values typed' in
    let run = encode_row-eq schema layout values compiled in
    elim checks [
      | inl (passed, short) ↦
          inl (run ∙ rw (wide, ==_refl (length layout.columns), passed) refl, short)
      | inr (refused, long) ↦
          inr (run ∙ rw (wide, ==_refl (length layout.columns), refused) refl, long)
    ]
