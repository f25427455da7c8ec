-- ===== src/Query/Select/Projecting.antt =====
-- `resolve_projection` and `project_row` of query/mod.rs together.
use rs_redbase.Prelude.{
  ℕ, zero, suc, ◌+◌, ◌<◌, ◌≡◌, refl, sym, ◌∙◌, ap, some, List, [], ◌∷◌, get_elem?, get_elem?_of_lt,
  map, length, arith, ok, Returns, bind_succeeds, guard_passed, ok_injective,
}
use rs_redbase.Prelude.Text.{Text, contains}
use rs_redbase.Table.Types.{ColumnSchema, TableSchema, Value, Row}
use rs_redbase.Query.Types.{Projection, ProjectionPlan}
use rs_redbase.Query.Columns.{resolve_schema_column}
use rs_redbase.Query.Update.Plans.{resolve_schema_column-StandsAt}
use rs_redbase.Query.Select.{
  range_from, resolve_columns, resolve_projection, value_from_row, project_indices, project_row,
}

-- The indices are those of the columns in the schema.
abbrev AreIndices : List ColumnSchema → List ColumnSchema → List ℕ → Type 0
AreIndices cs [] [] = Unit
AreIndices cs (c ∷ columns) (i ∷ indices) =
    (get_elem? cs i ≡ some c) × AreIndices cs columns indices
AreIndices cs _ _ = ⊥

abbrev name_of : ColumnSchema → Text
name_of c = c.name

-- What a request selects: every column, or the columns of the names in the request's order.
abbrev pub IsSelected : TableSchema → Projection → List ColumnSchema → Type 0
IsSelected schema Projection.all columns = columns ≡ schema.columns
IsSelected schema (Projection.columns names) columns = map name_of columns ≡ names

-- The values of a row at the columns of a plan.
abbrev pub AreValues : List ColumnSchema → List Value → List ColumnSchema → List Value → Type 0
AreValues cs row [] [] = Unit
AreValues cs row (c ∷ columns) (v ∷ values) =
    ((i : ℕ) × (get_elem? cs i ≡ some c) × (get_elem? row i ≡ some v))
    × AreValues cs row columns values
AreValues cs row _ _ = ⊥

resolve_columns-AreIndices :
    (table : Text) (schema : TableSchema) (names seen : List Text) (columns : List ColumnSchema)
    (indices : List ℕ)
    → resolve_columns table schema names seen ≡ ok (columns, indices)
    → AreIndices schema.columns columns indices × (map name_of columns ≡ names)
unfolding resolve_columns
resolve_columns-AreIndices table schema [] seen columns indices h =
    let nil : (List ColumnSchema × List ℕ) = (columns, indices) in
    let e : ([], []) ≡ nil = ok_injective h in rw (← ap (λ p. p.0) e, ← ap (λ p. p.1) e) (tt, refl)
resolve_columns-AreIndices table schema (name ∷ names) seen columns indices h =
    let (fresh, h1) = guard_passed (contains seen name) _ _ {y = (columns, indices)} h in
    let ((i, c), found, h2) =
      bind_succeeds (resolve_schema_column schema table name) _ {y = (columns, indices)} h1 in
    let ((columns', indices'), later, whole) =
      bind_succeeds (resolve_columns table schema names (name ∷ seen)) _ {y = (columns, indices)}
        h2 in
    let e = sym (ok_injective whole) in
    let at = resolve_schema_column-StandsAt schema table name i c found in
    let rest =
      resolve_columns-AreIndices table schema names (name ∷ seen) columns' indices' later in
    rw (ap (λ p. p.0) e, ap (λ p. p.1) e, at.1, rest.1) ((at.0, rest.0), refl)

range_from-AreIndices :
    (all cs : List ColumnSchema) (at : ℕ)
    → ((k : ℕ) → get_elem? all (at + k) ≡ get_elem? cs k)
    → AreIndices all cs (range_from at (length cs))
unfolding range_from
range_from-AreIndices all [] at h = tt
range_from-AreIndices all (c ∷ cs) at h = (
  ap (get_elem? all) (let e : at ≡ at + 0 = omega arith in e) ∙ h 0,
  range_from-AreIndices all cs (suc at)
      (λ k. ap (get_elem? all) (let e : suc at + k ≡ at + suc k = omega arith in e) ∙ h (suc k)),
)

pub resolve_projection-AreIndices :
    (table : Text) (schema : TableSchema) (projection : Projection) (plan : ProjectionPlan)
    → resolve_projection table schema projection ≡ ok plan
    → AreIndices schema.columns plan.columns plan.indices
      × IsSelected schema projection plan.columns
unfolding resolve_projection
resolve_projection-AreIndices table schema Projection.all plan h = rw (← ok_injective h) (
  range_from-AreIndices schema.columns schema.columns 0
      (λ k. ap (get_elem? schema.columns) (let e : 0 + k ≡ k = omega arith in e)),
  refl,
)
resolve_projection-AreIndices table schema (Projection.columns names) plan h =
    let ((columns, indices), run, whole) =
      bind_succeeds (resolve_columns table schema names []) _ {y = plan} h in
    rw (← ok_injective whole) (resolve_columns-AreIndices table schema names [] columns indices run)

pub get_elem?-lt {ℓ} :
    {A : Type ℓ} (xs : List A) (i : ℕ) (x : A) → get_elem? xs i ≡ some x → i < length xs
get_elem?-lt [] i x h = cc
get_elem?-lt (y ∷ xs) zero x h = omega arith
get_elem?-lt (y ∷ xs) (suc i) x h = omega (arith, get_elem?-lt xs i x h)

project_indices-AreValues :
    (cs columns : List ColumnSchema) (indices : List ℕ) (row : Row)
    → AreIndices cs columns indices
    → length row.values ≡ length cs
    → Returns (project_indices row indices) (AreValues cs row.values columns)
unfolding project_indices value_from_row
project_indices-AreValues cs [] [] row h wide = ([], refl, tt)
project_indices-AreValues cs [] (i ∷ indices) row h wide = absurd h
project_indices-AreValues cs (c ∷ columns) [] row h wide = absurd h
project_indices-AreValues cs (c ∷ columns) (i ∷ indices) row h wide =
    let (v, here) = get_elem?_of_lt row.values i (omega (arith, get_elem?-lt cs i c h.0)) in
    let (values, run, later) = project_indices-AreValues cs columns indices row h.1 wide in
    (v ∷ values, rw (here, run), ((i, h.0, here), later))

-- A projection that the planner accepts selects the requested columns in the requested order, and
-- projecting a row with as many values as the table has columns never panics: it returns the row's
-- values at those columns.
pub project_row-AreValues :
    (table : Text) (schema : TableSchema) (projection : Projection) (plan : ProjectionPlan)
    (row : Row)
    → resolve_projection table schema projection ≡ ok plan
    → length row.values ≡ length schema.columns
    → IsSelected schema projection plan.columns
      × Returns (project_row row plan) (AreValues schema.columns row.values plan.columns)
unfolding project_row
project_row-AreValues table schema projection plan row h wide =
    let (at, selected) = resolve_projection-AreIndices table schema projection plan h in
    (selected, project_indices-AreValues schema.columns plan.columns plan.indices row at wide)
