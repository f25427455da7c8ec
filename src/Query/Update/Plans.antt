-- ===== src/Query/Update/Plans.antt =====
-- `normalize_assignments` of query/mod.rs: the plan of an update.
use rs_redbase.Prelude.{
  ℕ, suc, ◌+◌, ◌≡◌, ◌≢◌, refl, true, false, not, some, List, [], ◌∷◌, get_elem?, arith, Bool-cases,
  inl, inr, ok, ok_injective, sym, bind_succeeds, guard_passed,
}
use rs_redbase.Prelude.Bytes.{eq_bytes, eq_bytes→eq}
use rs_redbase.Prelude.Text.{Text, contains}
use rs_redbase.Table.Types.{ColumnSchema, TableSchema}
use rs_redbase.Query.Types.{Assignment, NormalizedAssignment}
use rs_redbase.Query.Columns.{find_from, resolve_schema_column, value_matches_type}
use rs_redbase.Query.Update.{normalize_each, normalize_assignments}

-- The column at an index has the name.
abbrev pub StandsAt : List ColumnSchema → ℕ → Text → ColumnSchema → Type 0
StandsAt cs i name c = (get_elem? cs i ≡ some c) × (c.name ≡ name)

find_from-StandsAt :
    (cs : List ColumnSchema) (at i : ℕ) (name : Text) (c : ColumnSchema)
    → find_from at cs name ≡ some (i, c)
    → (k : ℕ) × (i ≡ at + k) × StandsAt cs k name c
unfolding find_from
find_from-StandsAt [] at i name c h = cc
find_from-StandsAt (x ∷ cs) at i name c h = elim (Bool-cases (eq_bytes x.name name)) [
  | inl here ↦
      let same = eq_bytes→eq x.name name here in (0, ground arith, (ground arith, ground arith))
  | inr later ↦
      let h' : find_from (suc at) cs name ≡ some (i, c) = ground arith in
      let (k, e, found) = find_from-StandsAt cs (suc at) i name c h' in (suc k, omega arith, found)
]

-- A column that a schema resolves stands at the index that comes with it.
pub resolve_schema_column-StandsAt :
    (schema : TableSchema) (table name : Text) (i : ℕ) (c : ColumnSchema)
    → resolve_schema_column schema table name ≡ ok (i, c)
    → StandsAt schema.columns i name c
unfolding resolve_schema_column
resolve_schema_column-StandsAt schema table name i c h =
    let found : find_from 0 schema.columns name ≡ some (i, c) = ground arith in
    let (k, e, at) = find_from-StandsAt schema.columns 0 i name c found in
    let same : i ≡ k = omega arith in rw same at

-- Request and plan, pairwise: the name and the value of the request, at the index of the column of
-- that name, with a value of its type, and no name twice.
abbrev pub ArePlanned :
    List ColumnSchema → List Text → List Assignment → List NormalizedAssignment → Type 0
ArePlanned cs seen [] [] = Unit
ArePlanned cs seen (a ∷ as') (n ∷ ns) =
    ((n.column ≡ a.column) × (n.value ≡ a.value) × (contains seen a.column ≡ false))
    × ((c : ColumnSchema) × StandsAt cs n.index a.column c
        × (value_matches_type c.column_type a.value ≡ true))
    × ArePlanned cs (a.column ∷ seen) as' ns
ArePlanned cs seen _ _ = ⊥

planned_round :
    (table : Text) (schema : TableSchema) (a : Assignment) (as' : List Assignment)
    (seen : List Text) (ns : List NormalizedAssignment)
    → normalize_each table schema (a ∷ as') seen ≡ ok ns
    → (i : ℕ) × (c : ColumnSchema) × (rest : List NormalizedAssignment) × (contains seen a.column
        ≡ false)
      × (resolve_schema_column schema table a.column ≡ ok (i, c))
      × (value_matches_type c.column_type a.value ≡ true)
      × (normalize_each table schema as' (a.column ∷ seen) ≡ ok rest)
      × (ns ≡ record { index = i; column = a.column; value = a.value } ∷ rest)
unfolding normalize_each
planned_round table schema a as' seen ns h =
    let (fresh, h1) = guard_passed (contains seen a.column) _ _ {y = ns} h in
    let ((i, c), found, h2) =
      bind_succeeds (resolve_schema_column schema table a.column) _ {y = ns} h1 in
    let (typed, h3) =
      guard_passed (not (value_matches_type c.column_type a.value)) _ _ {y = ns} h2 in
    let (rest, later, whole) =
      bind_succeeds (normalize_each table schema as' (a.column ∷ seen)) _ {y = ns} h3 in
    (i, c, rest, fresh, found, ground arith, later, sym (ok_injective whole))

normalize_each-ArePlanned :
    (table : Text) (schema : TableSchema) (as' : List Assignment) (seen : List Text)
    (ns : List NormalizedAssignment)
    → normalize_each table schema as' seen ≡ ok ns
    → ArePlanned schema.columns seen as' ns
unfolding normalize_each
normalize_each-ArePlanned table schema [] seen [] h = tt
normalize_each-ArePlanned table schema [] seen (n ∷ ns) h = cc
normalize_each-ArePlanned table schema (a ∷ as') seen ns h =
    let (i, c, rest, fresh, found, typed, later, whole) =
      planned_round table schema a as' seen ns h in
    rw whole (
      (refl, refl, fresh),
      (c, resolve_schema_column-StandsAt schema table a.column i c found, typed),
      normalize_each-ArePlanned table schema as' (a.column ∷ seen) rest later,
    )

-- An accepted update has at least one assignment, and its plan has the request's assignments in the
-- request's order, each at the index of the column of its name and with a value of that column's
-- type, no column twice.
pub normalize_assignments-ArePlanned :
    (table : Text) (schema : TableSchema) (as' : List Assignment) (ns : List NormalizedAssignment)
    → normalize_assignments table schema as' ≡ ok ns
    → (as' ≢ []) × ArePlanned schema.columns [] as' ns
unfolding normalize_assignments
normalize_assignments-ArePlanned table schema [] ns h = cc
normalize_assignments-ArePlanned table schema (a ∷ as') ns h =
    (ground arith, normalize_each-ArePlanned table schema (a ∷ as') [] ns h)
