-- ===== src/Query/Select/Sorting.antt =====
-- `apply_order_by` of query/mod.rs.
use rs_redbase.Prelude.{
  ◌≡◌, ◌≢◌, refl, sym, ◌∙◌, ap, inl, inr, ◌⊎◌, true, List, [], ◌∷◌, length, Returns, Ordering,
}
use rs_redbase.Prelude.Bytes.{reverse_ordering}
use rs_redbase.Table.Types.{ColumnSchema, Row}
use rs_redbase.Query.Types.{OrderKeyPlan}
use rs_redbase.Query.Typed.{AreTyped, AreRows, AreTyped-length, AreTyped-same_kind}
use rs_redbase.Query.Select.{
  insert_row, insert_rows, are_comparable, compares_with_all, all_comparable, sort_rows,
  apply_order_by,
}
use rs_redbase.Query.Select.Orders.{order, AreKeys, IsSorted, Sorts, order_flip, compare_rows-order}

Ordering-cases : (o : Ordering) → (o ≡ Ordering.gt) ⊎ (o ≢ Ordering.gt)
Ordering-cases Ordering.lt = inr (λ e. cc)
Ordering-cases Ordering.eq = inr (λ e. cc)
Ordering-cases Ordering.gt = inl refl

tail-IsSorted :
    (ks : List OrderKeyPlan) (s : Row) (rows : List Row) → IsSorted ks (s ∷ rows) → IsSorted ks rows
tail-IsSorted ks s [] h = tt
tail-IsSorted ks s (r ∷ rows) h = h.1

not_above :
    (ks : List OrderKeyPlan) (r s : Row) → order ks r s ≡ Ordering.gt → order ks s r ≢ Ordering.gt
not_above ks r s above e =
    let flip = order_flip ks r s in
    let both : Ordering.gt ≡ reverse_ordering Ordering.gt =
      sym e ∙ flip ∙ ap reverse_ordering above in
    cc

stops {ℓ} :
    {A : Type ℓ} (o : Ordering) (more stop : A)
    → o ≢ Ordering.gt
    → elim o [ Ordering.gt ↦ more | _ ↦ stop ] ≡ stop
stops Ordering.lt more stop h = refl
stops Ordering.eq more stop h = refl
stops Ordering.gt more stop h = absurd (h refl)

-- What inserting a row into sorted rows gives.
record Inserted (ks : List OrderKeyPlan) (cs : List ColumnSchema) (r : Row) (rows result : List Row)
    : Type 0 where
  typed : AreRows cs result
  sorted : IsSorted ks result
  reached : Sorts ks (r ∷ rows) result
  -- The first row is the inserted one, or the first of the others.
  first : (s : Row) → order ks s r ≢ Ordering.gt → IsSorted ks (s ∷ rows) → IsSorted ks (s ∷ result)

insert_row-Inserted :
    (ks : List OrderKeyPlan) (cs : List ColumnSchema) (r : Row) (rows : List Row)
    → AreKeys (length cs) ks
    → AreTyped cs r.values
    → AreRows cs rows
    → IsSorted ks rows
    → Returns (insert_row r rows ks) (Inserted ks cs r rows)
unfolding insert_row
insert_row-Inserted ks cs r [] keys h typed sorted = (
  r ∷ [],
  refl,
  record { typed = (h, tt); sorted = tt; reached = Sorts.done; first = λ s below _. (below, tt) },
)
insert_row-Inserted ks cs r (s ∷ rows) keys h typed sorted =
    let run =
      compare_rows-order ks r s (length cs) keys (AreTyped-length cs r.values h)
        (AreTyped-length cs s.values typed.0) in
    elim (Ordering-cases (order ks r s)) [
      | inl above ↦
          let (rest, run', i) =
            insert_row-Inserted ks cs r rows keys h typed.1 (tail-IsSorted ks s rows sorted) in
          let below : order ks s r ≢ Ordering.gt = not_above ks r s above in
          (
            s ∷ rest,
            rw (run, above, run'),
            record {
              typed = (typed.0, i.typed);
              sorted = i.first s below sorted;
              reached = Sorts.exchange above (Sorts.later i.reached);
              first = λ t _ before. (before.0, i.first s below sorted);
            },
          )
      | inr within ↦ (
        r ∷ s ∷ rows,
        rw run (stops (order ks r s) _ _ within),
        record {
          typed = (h, typed);
          sorted = (within, sorted);
          reached = Sorts.done;
          first = λ t below _. (below, (within, sorted));
        },
      )
    ]

insert_rows-IsSorted :
    (ks : List OrderKeyPlan) (cs : List ColumnSchema) (rows : List Row)
    → AreKeys (length cs) ks
    → AreRows cs rows
    → Returns
        (insert_rows rows ks)
        (λ result. AreRows cs result × IsSorted ks result × Sorts ks rows result)
unfolding insert_rows
insert_rows-IsSorted ks cs [] keys typed = ([], refl, (tt, tt, Sorts.done))
insert_rows-IsSorted ks cs (r ∷ rows) keys typed =
    let (rest, run, (typed', sorted, reached)) = insert_rows-IsSorted ks cs rows keys typed.1 in
    let (result, run', i) = insert_row-Inserted ks cs r rest keys typed.0 typed' sorted in
    (result, rw (run, run'), (i.typed, i.sorted, Sorts.trans (Sorts.later reached) i.reached))

-- Rows of a table's types compare consistently.
are_comparable_lem :
    (ks : List OrderKeyPlan) (cs : List ColumnSchema) (r s : Row)
    → AreTyped cs r.values
    → AreTyped cs s.values
    → are_comparable r s ks ≡ true
are_comparable_lem [] cs r s h k = refl
are_comparable_lem (key ∷ ks) cs r s h k =
    rw (AreTyped-same_kind cs r.values s.values key.index h k) (are_comparable_lem ks cs r s h k)

compares_with_all_lem :
    (ks : List OrderKeyPlan) (cs : List ColumnSchema) (r : Row) (rows : List Row)
    → AreTyped cs r.values
    → AreRows cs rows
    → compares_with_all r rows ks ≡ true
compares_with_all_lem ks cs r [] h typed = refl
compares_with_all_lem ks cs r (s ∷ rows) h typed =
    rw (are_comparable_lem ks cs r s h typed.0) (compares_with_all_lem ks cs r rows h typed.1)

all_comparable_lem :
    (ks : List OrderKeyPlan) (cs : List ColumnSchema) (rows : List Row)
    → AreRows cs rows
    → all_comparable rows ks ≡ true
all_comparable_lem ks cs [] typed = refl
all_comparable_lem ks cs (r ∷ rows) typed =
    rw (compares_with_all_lem ks cs r rows typed.0 typed.1) (all_comparable_lem ks cs rows typed.1)

sort_rows-IsSorted :
    (ks : List OrderKeyPlan) (cs : List ColumnSchema) (rows : List Row)
    → AreKeys (length cs) ks
    → AreRows cs rows
    → Returns
        (sort_rows rows ks)
        (λ result. AreRows cs result × IsSorted ks result × Sorts ks rows result)
unfolding sort_rows
sort_rows-IsSorted ks cs rows keys typed =
    rw (all_comparable_lem ks cs rows typed) (insert_rows-IsSorted ks cs rows keys typed)

-- Without keys every order is sorted.
unordered : (rows : List Row) → IsSorted [] rows
unordered [] = tt
unordered (r ∷ []) = tt
unordered (r ∷ s ∷ rows) = (λ e. cc, unordered (s ∷ rows))

-- Ordering the rows of a table, each with values of the columns' types, by keys that are columns of
-- the table never panics: it returns rows in the order of the keys, ascending or descending by the
-- values at each, reached by exchanging neighbours of which the first is strictly above the second, so
-- that ties keep their order.
pub apply_order_by-IsSorted :
    (ks : List OrderKeyPlan) (cs : List ColumnSchema) (rows : List Row)
    → AreKeys (length cs) ks
    → AreRows cs rows
    → Returns
        (apply_order_by rows ks)
        (λ result. AreRows cs result × IsSorted ks result × Sorts ks rows result)
unfolding apply_order_by
apply_order_by-IsSorted [] cs rows keys typed = (rows, refl, (typed, unordered rows, Sorts.done))
apply_order_by-IsSorted (k ∷ ks) cs rows keys typed = sort_rows-IsSorted (k ∷ ks) cs rows keys typed
