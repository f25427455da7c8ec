-- ===== src/Query/Select/Orders.antt =====
-- The order of rows by keys, and `compare_rows` of query/mod.rs.
use rs_redbase.Prelude.{
  ℕ, ◌<◌, ◌≡◌, ◌≢◌, refl, sym, ◌∙◌, ap, none, some, List, [], ◌∷◌, get_elem?, get_elem?_of_lt,
  length, arith, if◌then◌else◌, Result, ok, Ordering, All,
}
use rs_redbase.Prelude.Int.{pos, compare_ℤ}
use rs_redbase.Prelude.Bytes.{compare_bytes, compare_bytes_flip, reverse_ordering, then_with}
use rs_redbase.Record.Types.{total_cmp}
use rs_redbase.Table.Types.{Value, Row, compare_values}
use rs_redbase.Query.Types.{QueryError, SortDirection, OrderKeyPlan}
use rs_redbase.Query.Select.{compare_row_value_at, directed, is_tie, compare_rows}

-- The order of two values: numbers by value, floats in the total order of their patterns, texts by
-- their bytes.
abbrev value_order : Value → Value → Ordering
value_order (Value.int32 a) (Value.int32 b) = compare_ℤ a b
value_order (Value.float32 a) (Value.float32 b) = total_cmp a b
value_order (Value.char a) (Value.char b) = compare_bytes a b
value_order _ _ = Ordering.eq

-- A descending order is the order of the two values exchanged.
abbrev order_in : SortDirection → Value → Value → Ordering
order_in SortDirection.asc v w = value_order v w
order_in SortDirection.desc v w = value_order w v

-- The value at a column that is there.
abbrev value_at : Row → ℕ → Value
value_at row i = elim (get_elem? row.values i) [ none ↦ Value.int32 (pos 0) | some v ↦ v ]

-- The order of two rows: by the first key at which they differ.
abbrev pub order : List OrderKeyPlan → Row → Row → Ordering
order [] r s = Ordering.eq
order (k ∷ ks) r s =
    then_with (order_in k.direction (value_at r k.index) (value_at s k.index)) (order ks r s)

-- Keys among `n` columns.
abbrev pub AreKeys : ℕ → List OrderKeyPlan → Type 0
AreKeys n ks = All (λ k. k.index < n) ks

-- Each row is not above the next.
abbrev pub IsSorted : List OrderKeyPlan → List Row → Type 0
IsSorted ks [] = Unit
IsSorted ks (r ∷ []) = Unit
IsSorted ks (r ∷ s ∷ rows) = (order ks r s ≢ Ordering.gt) × IsSorted ks (s ∷ rows)

-- Reached by exchanging neighbours of which the first is above the second.
pub data Sorts (ks : List OrderKeyPlan) : List Row → List Row → Type 0 where
  done : {rows : List Row} → Sorts ks rows rows
  exchange :
      {r s : Row} {rows rows' : List Row}
      → order ks r s ≡ Ordering.gt
      → Sorts ks (s ∷ r ∷ rows) rows'
      → Sorts ks (r ∷ s ∷ rows) rows'
  later : {r : Row} {rows rows' : List Row} → Sorts ks rows rows' → Sorts ks (r ∷ rows) (r ∷ rows')
  trans :
      {rows rows' rows'' : List Row}
      → Sorts ks rows rows'
      → Sorts ks rows' rows''
      → Sorts ks rows rows''

value_order_flip : (v w : Value) → value_order w v ≡ reverse_ordering (value_order v w)
value_order_flip (Value.int32 a) (Value.int32 b) = ground arith
value_order_flip (Value.float32 a) (Value.float32 b) = ground arith
value_order_flip (Value.char a) (Value.char b) = compare_bytes_flip a b
value_order_flip (Value.int32 _) _ = refl
value_order_flip (Value.float32 _) _ = refl
value_order_flip (Value.char _) _ = refl

order_in_flip :
    (d : SortDirection) (v w : Value) → order_in d w v ≡ reverse_ordering (order_in d v w)
order_in_flip SortDirection.asc v w = value_order_flip v w
order_in_flip SortDirection.desc v w = value_order_flip w v

pub order_flip :
    (ks : List OrderKeyPlan) (r s : Row) → order ks s r ≡ reverse_ordering (order ks r s)
order_flip [] r s = refl
order_flip (k ∷ ks) r s =
    let v = value_at r k.index in
    let w = value_at s k.index in ground (arith, order_in_flip k.direction v w, order_flip ks r s)

compare_values-value_order : (v w : Value) → compare_values v w ≡ value_order v w
unfolding compare_values
compare_values-value_order (Value.int32 a) (Value.int32 b) = refl
compare_values-value_order (Value.float32 a) (Value.float32 b) = refl
compare_values-value_order (Value.char a) (Value.char b) = refl
compare_values-value_order (Value.int32 _) _ = refl
compare_values-value_order (Value.float32 _) _ = refl
compare_values-value_order (Value.char _) _ = refl

directed-order_in :
    (d : SortDirection) (v w : Value) → directed d (compare_values v w) ≡ order_in d v w
directed-order_in SortDirection.asc v w = compare_values-value_order v w
directed-order_in SortDirection.desc v w =
    ap reverse_ordering (compare_values-value_order v w) ∙ sym (value_order_flip v w)

break_tie :
    (o : Ordering) (rest : Result QueryError Ordering) (o' : Ordering)
    → rest ≡ ok o'
    → (if is_tie o then rest else ok o) ≡ ok (then_with o o')
break_tie Ordering.lt rest o' h = refl
break_tie Ordering.eq rest o' h = h
break_tie Ordering.gt rest o' h = refl

in_range :
    (r s : Row) (i : ℕ) (v w : Value)
    → get_elem? r.values i ≡ some v
    → get_elem? s.values i ≡ some w
    → compare_row_value_at r s i ≡ ok (compare_values (value_at r i) (value_at s i))
unfolding compare_row_value_at
in_range r s i v w at at' = ground arith

-- In range, comparing rows is the order of the keys.
pub compare_rows-order :
    (ks : List OrderKeyPlan) (r s : Row) (n : ℕ)
    → AreKeys n ks
    → length r.values ≡ n
    → length s.values ≡ n
    → compare_rows r s ks ≡ ok (order ks r s)
unfolding compare_rows compare_row_value_at
compare_rows-order [] r s n keys h k = refl
compare_rows-order (key ∷ ks) r s n keys h k =
    let (v, at) = get_elem?_of_lt r.values key.index (omega arith) in
    let (w, at') = get_elem?_of_lt s.values key.index (omega arith) in
    let v' = value_at r key.index in
    let w' = value_at s key.index in
    rw (in_range r s key.index v w at at') (
      break_tie (directed key.direction (compare_values v' w')) _ (order ks r s)
        (compare_rows-order ks r s n keys.1 h k)
      ∙ ap (λ o. ok (then_with o (order ks r s))) (directed-order_in key.direction v' w'))
