-- ===== src/Buffer/Frames/Numbers.antt =====
-- Lists of different numbers, as the frames of the pool are listed.
use rs_redbase.Prelude.{
  ℕ, ◌≡◌, ◌≢◌, refl, sym, ap, ◌⊎◌, inl, inr, true, false, Option, some, List, [], ◌∷◌, ◌++◌, ◌==◌,
  Bool-cases, if◌then◌else◌, arith,
}
use rs_redbase.Page.File.Store.{Listed, Distinct}
use rs_redbase.Page.File.Represented.{same_or_other, Listed-All, All-Listed}
use rs_redbase.Buffer.Frames.Links.{last_or}

pub Listed-in : (k : ℕ) {is js : List ℕ} → is ≡ js → Listed k is → Listed k js
Listed-in k e l = rw (← e) l

pub Listed-append : (k : ℕ) (is js : List ℕ) → Listed k (is ++ js) → Listed k is ⊎ Listed k js
Listed-append k [] js l = inr l
Listed-append k (i ∷ is) js (inl same) = inl (inl same)
Listed-append k (i ∷ is) js (inr later) = elim (Listed-append k is js later) [
  | inl l ↦ inl (inr l)
  | inr l ↦ inr l
]

pub Listed-left : (k : ℕ) (is js : List ℕ) → Listed k is → Listed k (is ++ js)
Listed-left k [] js l = absurd l
Listed-left k (i ∷ is) js (inl same) = inl same
Listed-left k (i ∷ is) js (inr later) = inr (Listed-left k is js later)

pub Listed-right : (k : ℕ) (is js : List ℕ) → Listed k js → Listed k (is ++ js)
Listed-right k [] js l = l
Listed-right k (i ∷ is) js l = inr (Listed-right k is js l)

pub Listed-insert :
    (k : ℕ) (is : List ℕ) (i : ℕ) (js : List ℕ) → Listed k (is ++ js) → Listed k (is ++ (i ∷ js))
Listed-insert k is i js l = elim (Listed-append k is js l) [
  | inl left ↦ Listed-left k is (i ∷ js) left
  | inr right ↦ Listed-right k is (i ∷ js) (inr right)
]

pub Listed-as : (is : List ℕ) {k m : ℕ} → k ≡ m → Listed k is → Listed m is
Listed-as is e l = rw (← e) l

pub Distinct-head : (i : ℕ) (is : List ℕ) → Distinct (i ∷ is) → (k : ℕ) → Listed k is → k ≢ i
Distinct-head i is d k l = Listed-All (λ j. j ≢ i) k is l d.0

-- The numbers of two parts are apart.
pub Distinct-apart :
    (is js : List ℕ) → Distinct (is ++ js) → (k : ℕ) → Listed k is → Listed k js → ⊥
Distinct-apart [] js d k l r = l
Distinct-apart (i ∷ is) js d k (inl same) r =
    Distinct-head i (is ++ js) d k (Listed-right k is js r) same
Distinct-apart (i ∷ is) js d k (inr later) r = Distinct-apart is js d.1 k later r

pub Distinct-parts : (is js : List ℕ) → Distinct (is ++ js) → Distinct is × Distinct js
Distinct-parts [] js d = (tt, d)
Distinct-parts (i ∷ is) js d =
    let (u, v) = Distinct-parts is js d.1 in
    (
      (
        All-Listed (λ j. j ≢ i) is (λ k l. Distinct-head i (is ++ js) d k (Listed-left k is js l)),
        u,
      ),
      v,
    )

-- Without one of its numbers.
pub Distinct-without :
    (is : List ℕ) (i : ℕ) (js : List ℕ)
    → Distinct (is ++ (i ∷ js))
    → Distinct (is ++ js) × (Listed i (is ++ js) → ⊥)
Distinct-without [] i js d = (d.1, λ l. Distinct-head i js d i l refl)
Distinct-without (h ∷ is) i js d =
    let (u, v) = Distinct-without is i js d.1 in
    let apart = Distinct-head h (is ++ (i ∷ js)) d in
    (
      (All-Listed (λ j. j ≢ h) (is ++ js) (λ k l. apart k (Listed-insert k is i js l)), u),
      λ l. elim l [
        | inl same ↦ apart i (Listed-right i is (i ∷ js) (inl refl)) same
        | inr later ↦ v later
      ],
    )

abbrev pub last_of : ℕ → List ℕ → ℕ
last_of k [] = k
last_of k (j ∷ js) = last_of j js

pub last_or-some : (k : ℕ) (ks : List ℕ) → last_or (some k) ks ≡ some (last_of k ks)
last_or-some k [] = refl
last_or-some k (j ∷ js) = last_or-some j js

pub last_of-Listed : (k : ℕ) (ks : List ℕ) → Listed (last_of k ks) (k ∷ ks)
last_of-Listed k [] = inl refl
last_of-Listed k (j ∷ js) = inr (last_of-Listed j js)

pub last_or-append :
    (other : Option ℕ) (is js : List ℕ) → last_or other (is ++ js) ≡ last_or (last_or other is) js
last_or-append other [] js = refl
last_or-append other (i ∷ is) js = last_or-append (some i) is js

-- The list without a number.
abbrev pub without : ℕ → List ℕ → List ℕ
without i [] = []
without i (j ∷ js) = let rest = without i js in if i == j then js else j ∷ rest

-- The number is not in the list, or the list has it between two parts.
pub without-cases :
    (i : ℕ) (ids : List ℕ)
    → ((Listed i ids → ⊥) × (without i ids ≡ ids))
      ⊎ ((pre post : List ℕ) × (ids ≡ pre ++ (i ∷ post)) × (without i ids ≡ pre ++ post))
without-cases i [] = inl (λ l. l, refl)
without-cases i (j ∷ js) = elim (same_or_other i j) [
  | inl same ↦
      inr
        ([], js, ap (λ k. k ∷ js) (sym same), (let e : (i == j) ≡ true = ground arith in rw e refl))
  | inr other ↦
      let e : (i == j) ≡ false = ground arith in
      elim (without-cases i js) [
        | inl (absent, kept) ↦
            inl
              (λ l. elim l [ inl same ↦ other same | inr later ↦ absent later ], rw (e, kept) refl)
        | inr (pre, post, split, rest) ↦
            inr (j ∷ pre, post, ap (λ k. j ∷ k) split, rw (e, rest) refl)
      ]
]

pub Listed-without : (k i : ℕ) (ids : List ℕ) → Listed k (without i ids) → Listed k ids
Listed-without k i [] l = l
Listed-without k i (j ∷ js) l = elim (Bool-cases (i == j)) [
  | inl same ↦ inr (Listed-in k (ap (λ b. if b then js else j ∷ without i js) same) l)
  | inr other ↦ elim (Listed-in k (ap (λ b. if b then js else j ∷ without i js) other) l) [
    | inl here ↦ inl here
    | inr later ↦ inr (Listed-without k i js later)
  ]
]
