-- ===== src/Query/Typed.antt =====
-- Rows of a table's types, by `value_matches_type` of query/mod.rs.
use rs_redbase.Prelude.{
  ℕ, zero, suc, ◌≡◌, refl, ap, true, some, List, [], ◌∷◌, get_elem?, length, All,
}
use rs_redbase.Table.Types.{ColumnType, ColumnSchema, Value, Row}
use rs_redbase.Query.Columns.{value_matches_type}
use rs_redbase.Query.Select.{same_kind}

-- As many values as columns, each of its column's type.
abbrev pub AreTyped : List ColumnSchema → List Value → Type 0
AreTyped [] [] = Unit
AreTyped (c ∷ cs) (v ∷ vs) = (value_matches_type c.column_type v ≡ true) × AreTyped cs vs
AreTyped _ _ = ⊥

-- Rows of the table's types.
abbrev pub AreRows : List ColumnSchema → List Row → Type 0
AreRows cs rows = All (λ r. AreTyped cs r.values) rows

pub AreTyped-length :
    (cs : List ColumnSchema) (vs : List Value) → AreTyped cs vs → length vs ≡ length cs
AreTyped-length [] [] h = refl
AreTyped-length [] (v ∷ vs) h = absurd h
AreTyped-length (c ∷ cs) [] h = absurd h
AreTyped-length (c ∷ cs) (v ∷ vs) h = ap suc (AreTyped-length cs vs h.1)

one_kind :
    (t : ColumnType) (v w : Value)
    → value_matches_type t v ≡ true
    → value_matches_type t w ≡ true
    → same_kind (some v) (some w) ≡ true
unfolding value_matches_type
one_kind ColumnType.int32 (Value.int32 a) (Value.int32 b) hv hw = refl
one_kind ColumnType.float32 (Value.float32 a) (Value.float32 b) hv hw = refl
one_kind (ColumnType.char len) (Value.char a) (Value.char b) hv hw = refl
one_kind ColumnType.int32 (Value.int32 a) _ hv hw = cc
one_kind ColumnType.float32 (Value.float32 a) _ hv hw = cc
one_kind (ColumnType.char len) (Value.char a) _ hv hw = cc
one_kind ColumnType.int32 _ w hv hw = cc
one_kind ColumnType.float32 _ w hv hw = cc
one_kind (ColumnType.char len) _ w hv hw = cc

-- In a column two rows have values of one kind.
pub AreTyped-same_kind :
    (cs : List ColumnSchema) (vs ws : List Value) (i : ℕ)
    → AreTyped cs vs
    → AreTyped cs ws
    → same_kind (get_elem? vs i) (get_elem? ws i) ≡ true
AreTyped-same_kind [] [] [] i hv hw = refl
AreTyped-same_kind [] (v ∷ vs) ws i hv hw = absurd hv
AreTyped-same_kind [] [] (w ∷ ws) i hv hw = absurd hw
AreTyped-same_kind (c ∷ cs) [] ws i hv hw = absurd hv
AreTyped-same_kind (c ∷ cs) (v ∷ vs) [] i hv hw = absurd hw
AreTyped-same_kind (c ∷ cs) (v ∷ vs) (w ∷ ws) zero hv hw = one_kind c.column_type v w hv.0 hw.0
AreTyped-same_kind (c ∷ cs) (v ∷ vs) (w ∷ ws) (suc i) hv hw =
    AreTyped-same_kind cs vs ws i hv.1 hw.1
