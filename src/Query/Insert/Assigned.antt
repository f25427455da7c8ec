-- ===== src/Query/Insert/Assigned.antt =====
-- `normalize_named_insert` of query/mod.rs: what its entries assign to the columns.
use rs_redbase.Prelude.{
  ◌≡◌, refl, true, false, Option, none, some, List, [], ◌∷◌, arith, if◌then◌else◌, Bool-cases,
  Option-cases, inl, inr, ok,
}
use rs_redbase.Prelude.Bytes.{eq_bytes, eq_bytes→eq}
use rs_redbase.Prelude.Text.{Text, contains}
use rs_redbase.Table.Types.{ColumnSchema, TableSchema, Value}
use rs_redbase.Query.Types.{NamedValue}
use rs_redbase.Query.Columns.{has_column, require_column, value_matches_type}
use rs_redbase.Query.Insert.{gather, remove_value}

-- The value that the entries give to a column.
unfoldable pub named_value : List NamedValue → Text → Option Value
named_value [] name = none
named_value (e ∷ es) name = if eq_bytes e.column name then some e.value else named_value es name

-- Every entry names a column of the table, and none names one of `seen` or of the entries before.
abbrev pub NamesOnce : List ColumnSchema → List Text → List NamedValue → Type 0
NamesOnce cs seen [] = Unit
NamesOnce cs seen (e ∷ es) =
    (has_column cs e.column ≡ true)
    × (contains seen e.column ≡ false)
    × NamesOnce cs (e.column ∷ seen) es

-- Each column has the value that the entries give it, of the column's type.
abbrev pub Assigned : List NamedValue → List ColumnSchema → List Value → Type 0
Assigned es [] [] = Unit
Assigned es (c ∷ cs) (v ∷ vs) =
    (named_value es c.name ≡ some v)
    × (value_matches_type c.column_type v ≡ true)
    × Assigned es cs vs
Assigned es _ _ = ⊥

pub gather-NamesOnce :
    (table : Text) (schema : TableSchema) (es : List NamedValue) (seen : List Text)
    → gather table schema es seen ≡ ok tt
    → NamesOnce schema.columns seen es
unfolding gather require_column
gather-NamesOnce table schema [] seen h = tt
gather-NamesOnce table schema (e ∷ es) seen h =
    (ground arith, ground arith, gather-NamesOnce table schema es (e.column ∷ seen) (ground arith))

pub NamesOnce-gather :
    (table : Text) (schema : TableSchema) (es : List NamedValue) (seen : List Text)
    → NamesOnce schema.columns seen es
    → gather table schema es seen ≡ ok tt
unfolding gather require_column
NamesOnce-gather table schema [] seen h = refl
NamesOnce-gather table schema (e ∷ es) seen h =
    rw (h.0, h.1) (NamesOnce-gather table schema es (e.column ∷ seen) h.2)

pub remove_value-found :
    (es : List NamedValue) (name : Text) (v : Value) (rest : List NamedValue)
    → remove_value es name ≡ some (v, rest)
    → named_value es name ≡ some v
unfolding remove_value named_value
remove_value-found [] name v rest h = cc
remove_value-found (e ∷ es) name v rest h = elim (Option-cases (remove_value es name)) [
  | inl absent ↦ ground arith
  | inr ((v', rest'), present) ↦ ground (arith, remove_value-found es name v' rest' present)
]

pub remove_value-others :
    (es : List NamedValue) (name k : Text) (v : Value) (rest : List NamedValue)
    → remove_value es name ≡ some (v, rest)
    → eq_bytes name k ≡ false
    → named_value rest k ≡ named_value es k
unfolding remove_value named_value
remove_value-others [] name k v rest h ne = cc
remove_value-others (e ∷ es) name k v rest h ne = elim (Bool-cases (eq_bytes e.column name)) [
  | inl here ↦ let same = eq_bytes→eq e.column name here in ground arith
  | inr later ↦ elim (Option-cases (remove_value es name)) [
    | inl absent ↦ ground arith
    | inr ((v', rest'), present) ↦ ground (arith, remove_value-others es name k v' rest' present ne)
  ]
]

pub remove_value_of_named :
    (es : List NamedValue) (name : Text) (v : Value)
    → named_value es name ≡ some v
    → (rest : List NamedValue) × (remove_value es name ≡ some (v, rest))
unfolding remove_value named_value
remove_value_of_named [] name v h = cc
remove_value_of_named (e ∷ es) name v h = elim (Bool-cases (eq_bytes e.column name)) [
  | inl here ↦ (es, ground arith)
  | inr later ↦
      let h' : named_value es name ≡ some v = ground arith in
      let (rest, run) = remove_value_of_named es name v h' in (e ∷ rest, rw (later, run))
]
