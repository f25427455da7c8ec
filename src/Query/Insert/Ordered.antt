-- ===== src/Query/Insert/Ordered.antt =====
-- `normalize_named_insert` of query/mod.rs: the values in the order of the columns.
use rs_redbase.Prelude.{
  ◌≡◌, ◌↔◌, refl, sym, ◌∙◌, true, false, some, List, [], ◌∷◌, arith, Bool-cases, Option-cases, inl,
  inr, ok, bind_succeeds, ok_injective,
}
use rs_redbase.Prelude.Bytes.{eq_bytes}
use rs_redbase.Prelude.Text.{Text, contains}
use rs_redbase.Table.Types.{ColumnSchema, TableSchema, Value}
use rs_redbase.Table.Schema.{SchemaLayout, compile_schema}
use rs_redbase.Table.Schema.Offsets.{IsDistinct, compile_schema-LayoutOf}
use rs_redbase.Query.Types.{NamedValue}
use rs_redbase.Query.Columns.{value_matches_type}
use rs_redbase.Query.Insert.{gather, remove_value, order_values, normalize_named_insert}
use rs_redbase.Query.Insert.Assigned.{
  named_value, NamesOnce, Assigned, gather-NamesOnce, NamesOnce-gather, remove_value-found,
  remove_value-others, remove_value_of_named,
}

-- What is left of the entries still gives the columns to come their values.
abbrev Agrees : List NamedValue → List NamedValue → List Text → Type 0
Agrees es left seen = (k : Text) → contains seen k ≡ false → named_value left k ≡ named_value es k

Agrees-after :
    (es left rest : List NamedValue) (seen : List Text) (name : Text) (v : Value)
    → Agrees es left seen
    → remove_value left name ≡ some (v, rest)
    → Agrees es rest (name ∷ seen)
unfolding contains
Agrees-after es left rest seen name v agrees run k fresh =
    let other : eq_bytes name k ≡ false = ground arith in
    let old : contains seen k ≡ false = ground arith in
    remove_value-others left name k v rest run other ∙ agrees k old

record Step (table : Text) (c : ColumnSchema) (cs : List ColumnSchema) (left : List NamedValue)
    (vs : List Value) : Type 0 where
  v : Value
  rest : List NamedValue
  others : List Value
  removed : remove_value left c.name ≡ some (v, rest)
  typed : value_matches_type c.column_type v ≡ true
  later : order_values table cs rest ≡ ok others
  whole : vs ≡ v ∷ others

step :
    (table : Text) (c : ColumnSchema) (cs : List ColumnSchema) (left : List NamedValue)
    (vs : List Value)
    → order_values table (c ∷ cs) left ≡ ok vs
    → Step table c cs left vs
unfolding order_values
step table c cs left vs h = elim (Option-cases (remove_value left c.name)) [
  | inl absent ↦ ground arith
  | inr ((v, rest), present) ↦ elim (Bool-cases (value_matches_type c.column_type v)) [
    | inl typed ↦
        let (others, later, whole) =
          bind_succeeds (order_values table cs rest) (λ o. ok (v ∷ o)) (ground arith) in
        record {
          v = v;
          rest = rest;
          others = others;
          removed = present;
          typed = typed;
          later = later;
          whole = sym (ok_injective whole);
        }
    | inr other ↦ ground arith
  ]
]

order_values-Assigned :
    (table : Text) (es : List NamedValue) (cs : List ColumnSchema) (left : List NamedValue)
    (seen : List Text) (vs : List Value)
    → IsDistinct seen cs
    → Agrees es left seen
    → order_values table cs left ≡ ok vs
    → Assigned es cs vs
unfolding order_values
order_values-Assigned table es [] left seen [] distinct agrees h = tt
order_values-Assigned table es [] left seen (v ∷ vs) distinct agrees h = cc
order_values-Assigned table es (c ∷ cs) left seen vs distinct agrees h =
    let s = step table c cs left vs h in
    rw (s.whole) (
      sym (agrees c.name distinct.0) ∙ remove_value-found left c.name s.v s.rest s.removed,
      s.typed,
      order_values-Assigned table es cs s.rest (c.name ∷ seen) s.others distinct.1
          (Agrees-after es left s.rest seen c.name s.v agrees s.removed) s.later,
    )

Assigned-order_values :
    (table : Text) (es : List NamedValue) (cs : List ColumnSchema) (left : List NamedValue)
    (seen : List Text) (vs : List Value)
    → IsDistinct seen cs
    → Agrees es left seen
    → Assigned es cs vs
    → order_values table cs left ≡ ok vs
unfolding order_values
Assigned-order_values table es [] left seen [] distinct agrees h = refl
Assigned-order_values table es [] left seen (v ∷ vs) distinct agrees h = absurd h
Assigned-order_values table es (c ∷ cs) left seen [] distinct agrees h = absurd h
Assigned-order_values table es (c ∷ cs) left seen (v ∷ vs) distinct agrees h =
    let (rest, run) = remove_value_of_named left c.name v (agrees c.name distinct.0 ∙ h.0) in
    rw
      (
        run,
        h.1,
        Assigned-order_values table es cs rest (c.name ∷ seen) vs distinct.1
            (Agrees-after es left rest seen c.name v agrees run) h.2,
      )
      refl

-- A named insert on a table whose schema compiles is accepted exactly when its entries name
-- columns of the table, none twice, and give every column a value of its type; the row is then
-- those values in the table's order of columns.
pub normalize_named_insert_iff :
    (table : Text) (schema : TableSchema) (layout : SchemaLayout) (es : List NamedValue)
    (vs : List Value)
    → compile_schema schema ≡ ok layout
    → (normalize_named_insert table schema es ≡ ok vs)
      ↔ (NamesOnce schema.columns [] es × Assigned es schema.columns vs)
unfolding normalize_named_insert
normalize_named_insert_iff table schema layout es vs compiled =
    let distinct = (compile_schema-LayoutOf schema layout compiled).columns.distinct in
    let same : Agrees es es [] = λ k _. refl in
    (
      (λ h.
          let (u, gathered, ordered) =
            bind_succeeds (gather table schema es []) (λ _. order_values table schema.columns es)
              h in
          (
            gather-NamesOnce table schema es [] gathered,
            order_values-Assigned table es schema.columns es [] vs distinct same ordered,
          )),
      (λ (once, assigned).
          rw (NamesOnce-gather table schema es [] once)
            (Assigned-order_values table es schema.columns es [] vs distinct same assigned)),
    )
