-- ===== src/Index/Lookup.antt =====
-- `lookup_eq` of storage/index, on the entries that were loaded. `partition_point` is the standard
-- library's, on a slice in which the test holds for a front part: the length of that part.
use mathlib.Core.List.{append-nil}
use rs_redbase.Prelude.{
  ℕ, suc, ◌+◌, ◌≡◌, refl, sym, ◌∙◌, ap, inl, inr, Bool, true, false, not, List, [], ◌∷◌, ◌++◌, map,
  All, Bool-cases, if◌then◌else◌, length, Result, ok, ◌>>=◌, arith,
}
use rs_redbase.Prelude.Int.{ℤ, ltb_ℤ, eqb_ℤ}
use rs_redbase.Prelude.Bytes.{slice, slice_exact}
use rs_redbase.Record.Types.{Rid}
use rs_redbase.Index.{IndexEntry, IndexError}

abbrev partition_point : (IndexEntry → Bool) → List IndexEntry → ℕ
partition_point test [] = 0
partition_point test (e ∷ es) = let rest = partition_point test es in if test e then suc rest else 0

unfoldable pub lookup_entries : List IndexEntry → ℤ → Result IndexError (List Rid)
lookup_entries entries key = do
  let start = partition_point (λ entry. ltb_ℤ entry.key key) entries
  let end = partition_point (λ entry. not (ltb_ℤ key entry.key)) entries
  found ← slice entries start end
  ok (map (λ entry. entry.rid) found)

-- No entry has a key below an earlier one's.
abbrev pub IsSorted : List IndexEntry → Type 0
IsSorted [] = Unit
IsSorted (e ∷ es) = All (λ f. ltb_ℤ f.key e.key ≡ false) es × IsSorted es

-- The entries of a key, in their order.
abbrev pub with_key : ℤ → List IndexEntry → List IndexEntry
with_key key [] = []
with_key key (e ∷ es) = let rest = with_key key es in if eqb_ℤ e.key key then e ∷ rest else rest

-- The entries below a key, of the key, and above it.
abbrev Parts : ℤ → List IndexEntry → Type 0
Parts key entries =
    (below here above : List IndexEntry) × (entries ≡ below ++ (here ++ above))
    × All (λ e. ltb_ℤ e.key key ≡ true) below
    × All (λ e. (ltb_ℤ e.key key ≡ false) × (ltb_ℤ key e.key ≡ false)) here
    × All (λ e. ltb_ℤ key e.key ≡ true) above

not_below : (a b k : ℤ) → ltb_ℤ b a ≡ false → ltb_ℤ a k ≡ false → ltb_ℤ b k ≡ false
not_below a b k h g = ground arith

above_stays : (a b k : ℤ) → ltb_ℤ b a ≡ false → ltb_ℤ k a ≡ true → ltb_ℤ k b ≡ true
above_stays a b k h g = ground arith

same_key : (a k : ℤ) → ltb_ℤ a k ≡ false → ltb_ℤ k a ≡ false → eqb_ℤ a k ≡ true
same_key a k h g = ground arith

below_differs : (a k : ℤ) → ltb_ℤ a k ≡ true → (eqb_ℤ a k ≡ false) × (ltb_ℤ k a ≡ false)
below_differs a k h = (ground arith, ground arith)

above_differs : (a k : ℤ) → ltb_ℤ k a ≡ true → (eqb_ℤ a k ≡ false) × (ltb_ℤ a k ≡ false)
above_differs a k h = (ground arith, ground arith)

All-imp :
    (P Q : IndexEntry → Type 0) (es : List IndexEntry)
    → ((e : IndexEntry) → P e → Q e)
    → All P es
    → All Q es
All-imp P Q [] f all = tt
All-imp P Q (e ∷ es) f (p, ps) = (f e p, All-imp P Q es f ps)

-- From the first entry on that is not below the key.
upper_parts :
    (key : ℤ) (es : List IndexEntry)
    → IsSorted es
    → All (λ e. ltb_ℤ e.key key ≡ false) es
    → (here above : List IndexEntry) × (es ≡ here ++ above)
      × All (λ e. (ltb_ℤ e.key key ≡ false) × (ltb_ℤ key e.key ≡ false)) here
      × All (λ e. ltb_ℤ key e.key ≡ true) above
upper_parts key [] sorted all = ([], [], refl, tt, tt)
upper_parts key (e ∷ es) sorted all = elim (Bool-cases (ltb_ℤ key e.key)) [
  | inl beyond ↦ (
    [],
    e ∷ es,
    refl,
    tt,
    (
      beyond,
      All-imp (λ f. ltb_ℤ f.key e.key ≡ false) (λ f. ltb_ℤ key f.key ≡ true) es
          (λ f h. above_stays e.key f.key key h beyond) sorted.0,
    ),
  )
  | inr within ↦
      let (here, above, split, hs, tops) = upper_parts key es sorted.1 all.1 in
      (e ∷ here, above, ap (λ l. e ∷ l) split, ((all.0, within), hs), tops)
]

parts : (key : ℤ) (es : List IndexEntry) → IsSorted es → Parts key es
parts key [] sorted = ([], [], [], refl, tt, tt, tt)
parts key (e ∷ es) sorted = elim (Bool-cases (ltb_ℤ e.key key)) [
  | inl under ↦
      let (below, here, above, split, bs, hs, tops) = parts key es sorted.1 in
      (e ∷ below, here, above, ap (λ l. e ∷ l) split, (under, bs), hs, tops)
  | inr reached ↦
      let (here, above, split, hs, tops) = upper_parts key (e ∷ es) sorted (
        reached,
        All-imp (λ f. ltb_ℤ f.key e.key ≡ false) (λ f. ltb_ℤ f.key key ≡ false) es
            (λ f h. not_below e.key f.key key h reached) sorted.0,
      ) in
      ([], here, above, split, tt, hs, tops)
]

partition_point-front :
    (test : IndexEntry → Bool) (xs ys : List IndexEntry)
    → All (λ e. test e ≡ true) xs
    → partition_point test (xs ++ ys) ≡ length xs + partition_point test ys
partition_point-front test [] ys all = omega arith
partition_point-front test (x ∷ xs) ys (h, hs) =
    ap (λ b. if b then suc (partition_point test (xs ++ ys)) else 0) h
    ∙ (let rest = partition_point-front test xs ys hs in omega arith)

partition_point-back :
    (test : IndexEntry → Bool) (ys : List IndexEntry)
    → All (λ e. test e ≡ false) ys
    → partition_point test ys ≡ 0
partition_point-back test [] all = refl
partition_point-back test (y ∷ ys) (h, hs) =
    ap (λ b. if b then suc (partition_point test ys) else 0) h

with_key-others :
    (key : ℤ) (xs ys : List IndexEntry)
    → All (λ e. eqb_ℤ e.key key ≡ false) xs
    → with_key key (xs ++ ys) ≡ with_key key ys
with_key-others key [] ys all = refl
with_key-others key (x ∷ xs) ys (h, hs) =
    ap (λ b. if b then x ∷ with_key key (xs ++ ys) else with_key key (xs ++ ys)) h
    ∙ with_key-others key xs ys hs

with_key-here :
    (key : ℤ) (xs ys : List IndexEntry)
    → All (λ e. eqb_ℤ e.key key ≡ true) xs
    → with_key key (xs ++ ys) ≡ xs ++ with_key key ys
with_key-here key [] ys all = refl
with_key-here key (x ∷ xs) ys (h, hs) =
    ap (λ b. if b then x ∷ with_key key (xs ++ ys) else with_key key (xs ++ ys)) h
    ∙ ap (λ l. x ∷ l) (with_key-here key xs ys hs)

with_key-parts :
    (key : ℤ) (entries below here above : List IndexEntry)
    → entries ≡ below ++ (here ++ above)
    → All (λ e. ltb_ℤ e.key key ≡ true) below
    → All (λ e. (ltb_ℤ e.key key ≡ false) × (ltb_ℤ key e.key ≡ false)) here
    → All (λ e. ltb_ℤ key e.key ≡ true) above
    → with_key key entries ≡ here
with_key-parts key entries below here above split bs hs tops =
    ap (with_key key) split
    ∙ with_key-others key below (here ++ above)
        (All-imp _ (λ e. eqb_ℤ e.key key ≡ false) below (λ e h. (below_differs e.key key h).0) bs)
    ∙ with_key-here key here above
        (All-imp _ (λ e. eqb_ℤ e.key key ≡ true) here (λ e h. same_key e.key key h.0 h.1) hs)
    ∙ ap (λ l. here ++ l)
        (ap (with_key key) (sym (append-nil above))
          ∙ with_key-others key above [] (
              All-imp _ (λ e. eqb_ℤ e.key key ≡ false) above (λ e h. (above_differs e.key key h).0)
                tops))
    ∙ append-nil here

All-append :
    (P : IndexEntry → Type 0) (xs ys : List IndexEntry) → All P xs → All P ys → All P (xs ++ ys)
All-append P [] ys u v = v
All-append P (x ∷ xs) ys (h, hs) v = (h, All-append P xs ys hs v)

-- In entries sorted by key, a lookup finds the records of the key, in order, and never panics.
pub lookup_entries-with_key :
    (entries : List IndexEntry) (key : ℤ)
    → IsSorted entries
    → lookup_entries entries key ≡ ok (map (λ entry. entry.rid) (with_key key entries))
unfolding lookup_entries
lookup_entries-with_key entries key sorted =
    let (below, here, above, split, bs, hs, tops) = parts key entries sorted in
    let start =
      ap (partition_point (λ e. ltb_ℤ e.key key)) split
      ∙ partition_point-front (λ e. ltb_ℤ e.key key) below (here ++ above) bs
      ∙ ap (λ n. length below + n)
          (partition_point-back (λ e. ltb_ℤ e.key key) (here ++ above)
            (All-append (λ e. ltb_ℤ e.key key ≡ false) here above
              (All-imp _ (λ e. ltb_ℤ e.key key ≡ false) here (λ e h. h.0) hs)
              (All-imp _ (λ e. ltb_ℤ e.key key ≡ false) above (λ e h. (above_differs e.key key h).1)
                tops))) in
    let end =
      ap (partition_point (λ e. not (ltb_ℤ key e.key))) split
      ∙ partition_point-front (λ e. not (ltb_ℤ key e.key)) below (here ++ above)
          (All-imp _ (λ e. not (ltb_ℤ key e.key) ≡ true) below
            (λ e h. ap not (below_differs e.key key h).1) bs)
      ∙ ap (λ n. length below + n)
          (partition_point-front (λ e. not (ltb_ℤ key e.key)) here above
              (All-imp _ (λ e. not (ltb_ℤ key e.key) ≡ true) here (λ e h. ap not h.1) hs)
            ∙ ap (λ n. length here + n)
                (partition_point-back (λ e. not (ltb_ℤ key e.key)) above
                  (All-imp _ (λ e. not (ltb_ℤ key e.key) ≡ false) above (λ e h. ap not h) tops))) in
    ap (λ r. r >>= λ found. ok (map (λ entry. entry.rid) found))
      (ap
          (λ l.
            slice {E = IndexError} l (partition_point (λ e. ltb_ℤ e.key key) entries)
              (partition_point (λ e. not (ltb_ℤ key e.key)) entries))
          split
        ∙ slice_exact below here above _ _ (omega (arith, start)) (omega (arith, end)))
    ∙ ap (λ l. ok (map (λ entry. entry.rid) l))
        (sym (with_key-parts key entries below here above split bs hs tops))
