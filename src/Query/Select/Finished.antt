-- ===== src/Query/Select/Finished.antt =====
-- What `execute_select` does with the rows it has read.
use rs_redbase.Prelude.{
  ℕ, zero, suc, ◌≡◌, refl, sym, ap, Option, none, some, List, [], ◌∷◌, length, ok, Returns,
  bind_succeeds, guard_passed, ok_injective,
}
use rs_redbase.Prelude.Text.{Text, contains}
use rs_redbase.Table.Types.{ColumnSchema, TableSchema, Value, Row}
use rs_redbase.Query.Types.{
  OrderBy, ExtendedSelectRequest, ProjectionPlan, OrderKeyPlan, SelectPlan,
}
use rs_redbase.Query.Columns.{resolve_schema_column}
use rs_redbase.Query.Update.Plans.{StandsAt, resolve_schema_column-StandsAt}
use rs_redbase.Query.Select.{
  resolve_projection, resolve_keys, resolve_order_by, normalize_limit, resolve_select_plan,
  apply_limit, project_row, project_rows, finish_select,
}
use rs_redbase.Query.Select.Projecting.{
  IsSelected, AreValues, get_elem?-lt, resolve_projection-AreIndices, project_row-AreValues,
}
use rs_redbase.Query.Typed.{AreRows, AreTyped-length}
use rs_redbase.Query.Select.Orders.{AreKeys, IsSorted, Sorts}
use rs_redbase.Query.Select.Sorting.{apply_order_by-IsSorted}

-- The keys of a plan are the request's: their columns and their directions.
abbrev pub AreRequested : TableSchema → List OrderBy → List OrderKeyPlan → Type 0
AreRequested schema [] [] = Unit
AreRequested schema (item ∷ items) (key ∷ keys) =
    ((key.direction ≡ item.direction)
      × (c : ColumnSchema) × StandsAt schema.columns key.index item.column c)
    × AreRequested schema items keys
AreRequested schema _ _ = ⊥

resolve_keys-AreRequested :
    (table : Text) (schema : TableSchema) (items : List OrderBy) (seen : List Text)
    (keys : List OrderKeyPlan)
    → resolve_keys table schema items seen ≡ ok keys
    → AreRequested schema items keys
unfolding resolve_keys
resolve_keys-AreRequested table schema [] seen keys h = rw (← ok_injective h) tt
resolve_keys-AreRequested table schema (item ∷ items) seen keys h =
    let (fresh, h1) = guard_passed (contains seen item.column) _ _ {y = keys} h in
    let ((i, c), found, h2) =
      bind_succeeds (resolve_schema_column schema table item.column) _ {y = keys} h1 in
    let (rest, later, whole) =
      bind_succeeds (resolve_keys table schema items (item.column ∷ seen)) _ {y = keys} h2 in
    rw (← ok_injective whole) (
      (refl, c, resolve_schema_column-StandsAt schema table item.column i c found),
      resolve_keys-AreRequested table schema items (item.column ∷ seen) rest later,
    )

AreRequested-AreKeys :
    (schema : TableSchema) (items : List OrderBy) (keys : List OrderKeyPlan)
    → AreRequested schema items keys
    → AreKeys (length schema.columns) keys
AreRequested-AreKeys schema [] [] h = tt
AreRequested-AreKeys schema [] (key ∷ keys) h = absurd h
AreRequested-AreKeys schema (item ∷ items) [] h = absurd h
AreRequested-AreKeys schema (item ∷ items) (key ∷ keys) h = (
  get_elem?-lt schema.columns key.index h.0.1 h.0.2.0,
  AreRequested-AreKeys schema items keys h.1,
)

-- Of each row, the values at the columns.
abbrev pub AreProjected :
    List ColumnSchema → List ColumnSchema → List Row → List (List Value) → Type 0
AreProjected cs columns [] [] = Unit
AreProjected cs columns (r ∷ rows) (values ∷ results) =
    AreValues cs r.values columns values × AreProjected cs columns rows results
AreProjected cs columns _ _ = ⊥

-- The first rows, as many as the limit, or all of them.
abbrev front : Option ℕ → List Row → List Row
front none rows = rows
front (some zero) rows = []
front (some (suc n)) [] = []
front (some (suc n)) (r ∷ rows) = r ∷ front (some n) rows

apply_limit-front : (rows : List Row) (limit : Option ℕ) → apply_limit rows limit ≡ front limit rows
unfolding apply_limit
apply_limit-front rows none = refl
apply_limit-front rows (some zero) = refl
apply_limit-front [] (some (suc n)) = refl
apply_limit-front (r ∷ rows) (some (suc n)) = ap (λ t. r ∷ t) (apply_limit-front rows (some n))

front-AreRows :
    (cs : List ColumnSchema) (limit : Option ℕ) (rows : List Row)
    → AreRows cs rows
    → AreRows cs (front limit rows)
front-AreRows cs none rows h = h
front-AreRows cs (some zero) rows h = tt
front-AreRows cs (some (suc n)) [] h = tt
front-AreRows cs (some (suc n)) (r ∷ rows) h = (h.0, front-AreRows cs (some n) rows h.1)

project_rows-AreProjected :
    (cs columns : List ColumnSchema) (projection : ProjectionPlan) (rows : List Row)
    → ((r : Row)
        → length r.values ≡ length cs
        → Returns (project_row r projection) (AreValues cs r.values columns))
    → AreRows cs rows
    → Returns (project_rows rows projection) (AreProjected cs columns rows)
unfolding project_rows
project_rows-AreProjected cs columns projection [] each typed = ([], refl, tt)
project_rows-AreProjected cs columns projection (r ∷ rows) each typed =
    let (values, run, here) = each r (AreTyped-length cs r.values typed.0) in
    let (results, run', later) =
      project_rows-AreProjected cs columns projection rows each typed.1 in
    (values ∷ results, rw (run, run'), (here, later))

-- What a select returns, from the rows that its table returned: the rows put in the order of the
-- requested keys by exchanges of neighbours out of order, cut at the limit, and of each the values
-- of the requested columns.
pub record Selected (schema : TableSchema) (request : ExtendedSelectRequest) (plan : SelectPlan)
    (rows : List Row) (results : List (List Value)) : Type 0 where
  pub keys : AreRequested schema request.order_by plan.order_by
  pub columns : IsSelected schema request.projection plan.projection.columns
  pub limit : plan.limit ≡ request.limit
  pub ordered : List Row
  pub sorted : IsSorted plan.order_by ordered
  pub reached : Sorts plan.order_by rows ordered
  pub projected :
      AreProjected schema.columns plan.projection.columns (front request.limit ordered) results

normalize_limit-eq :
    (table : Text) (limit limit' : Option ℕ)
    → normalize_limit table limit ≡ ok limit'
    → limit' ≡ limit
unfolding normalize_limit
normalize_limit-eq table none limit' h = sym (ok_injective h)
normalize_limit-eq table (some zero) limit' h = cc
normalize_limit-eq table (some (suc n)) limit' h = sym (ok_injective h)

record Parts (table : Text) (schema : TableSchema) (request : ExtendedSelectRequest)
    (plan : SelectPlan) : Type 0 where
  projection : resolve_projection table schema request.projection ≡ ok plan.projection
  keys : resolve_keys table schema request.order_by [] ≡ ok plan.order_by
  limit : plan.limit ≡ request.limit

parts :
    (table : Text) (schema : TableSchema) (request : ExtendedSelectRequest) (plan : SelectPlan)
    → resolve_select_plan table schema request ≡ ok plan
    → Parts table schema request plan
unfolding resolve_select_plan resolve_order_by
parts table schema request plan h =
    let (projection, run, h1) =
      bind_succeeds (resolve_projection table schema request.projection) _ {y = plan} h in
    let (order_by, run', h2) =
      bind_succeeds (resolve_order_by table schema request.order_by) _ {y = plan} h1 in
    let (limit, run'', whole) =
      bind_succeeds (normalize_limit table request.limit) _ {y = plan} h2 in
    rw (← ok_injective whole) (record {
      projection = run;
      keys = run';
      limit = normalize_limit-eq table request.limit limit run'';
    })

-- A select that the planner accepts never panics on the rows of its table, each with values of the
-- columns' types, and returns what it asks for: the rows in the requested order, ascending or
-- descending at each key, ties in the order read, the first of them up to the limit, with the
-- requested columns.
pub finish_select-Selected :
    (table : Text) (schema : TableSchema) (request : ExtendedSelectRequest) (plan : SelectPlan)
    (rows : List Row)
    → resolve_select_plan table schema request ≡ ok plan
    → AreRows schema.columns rows
    → Returns (finish_select rows plan) (Selected schema request plan rows)
unfolding finish_select
finish_select-Selected table schema request plan rows h typed =
    let p = parts table schema request plan h in
    let n = length schema.columns in
    let requested =
      resolve_keys-AreRequested table schema request.order_by [] plan.order_by p.keys in
    let (ordered, run, (typed', sorted, reached)) =
      apply_order_by-IsSorted plan.order_by schema.columns rows
        (AreRequested-AreKeys schema request.order_by plan.order_by requested) typed in
    let each = λ (r : Row). λ (w : length r.values ≡ n).
      project_row-AreValues table schema request.projection plan.projection r p.projection w in
    let (results, run', projected) =
      project_rows-AreProjected schema.columns plan.projection.columns plan.projection
        (front plan.limit ordered) (λ r w. (each r w).1)
        (front-AreRows schema.columns plan.limit ordered typed') in
    (
      results,
      rw (run, apply_limit-front ordered plan.limit, run') refl,
      record {
        keys = requested;
        columns =
            (resolve_projection-AreIndices table schema request.projection plan.projection
              p.projection).1;
        limit = p.limit;
        ordered = ordered;
        sorted = sorted;
        reached = reached;
        projected = rw (← p.limit) projected;
      },
    )
