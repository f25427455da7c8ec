-- ===== src/Prelude/Bytes/Slices/Disjoint.antt =====
-- What is read after a write: the bytes written, and outside their range the bytes before.
use Prim.Native.Nat.{ℕ, zero, suc, ◌+◌, ◌-◌, ◌≤◌}
use mathlib.Core.Path.{◌≡◌, refl, ap, ◌∙◌}
use mathlib.Core.List.{List, [], ◌∷◌, ◌++◌}
use native.Mathlib.Omega.{arith}
use rs_redbase.Prelude.Tests.{le→leb}
use rs_redbase.Prelude.Lists.{length, take, drop, replicate, length-replicate}
use rs_redbase.Prelude.Outcome.{ok, Returns}
use rs_redbase.Prelude.Bytes.Slices.{overwrite, splice, slice, copy_into, fill_range, length-splice}

module _ {ℓ} {A : Type ℓ} where
  take-nil : (n : ℕ) → take {A = A} n [] ≡ []
  take-nil zero = refl
  take-nil (suc n) = refl

  take-drop : (b e : ℕ) (t : List A) → take (e - b) (drop b t) ≡ drop b (take e t)
  take-drop zero e t = ap (λ n. take n t) (let same : e - zero ≡ e = omega arith in same)
  take-drop (suc b) zero t =
      ap (λ n. take n (drop (suc b) t))
        (let none_left : zero - suc b ≡ zero = omega arith in none_left)
  take-drop (suc b) (suc e) [] = take-nil (suc e - suc b)
  take-drop (suc b) (suc e) (x ∷ t) =
      ap (λ n. take n (drop b t)) (let same : suc e - suc b ≡ e - b = omega arith in same)
      ∙ take-drop b e t

  take-splice :
      (t : List A) (start n : ℕ) (source : List A)
      → n ≤ start
      → take n (splice t start source) ≡ take n t
  unfolding splice
  take-splice t start zero source h = refl
  take-splice [] (suc start) (suc n) source h = refl
  take-splice (x ∷ t) (suc start) (suc n) source h =
      ap (λ r. x ∷ r) (take-splice t start n source (omega arith))
  take-splice t zero (suc n) source h = absurd (omega arith)

  drop-overwrite :
      (t source : List A) (n : ℕ) → length source ≤ n → drop n (overwrite t source) ≡ drop n t
  unfolding overwrite
  drop-overwrite [] source n h = refl
  drop-overwrite (x ∷ t) [] n h = refl
  drop-overwrite (x ∷ t) (s ∷ source) zero h = absurd (omega arith)
  drop-overwrite (x ∷ t) (s ∷ source) (suc n) h = drop-overwrite t source n (omega arith)

  drop-splice :
      (t : List A) (start n : ℕ) (source : List A)
      → start + length source ≤ n
      → drop n (splice t start source) ≡ drop n t
  unfolding splice
  drop-splice t zero n source h = drop-overwrite t source n (omega arith)
  drop-splice [] (suc start) n source h = refl
  drop-splice (x ∷ t) (suc start) zero source h = absurd (omega arith)
  drop-splice (x ∷ t) (suc start) (suc n) source h = drop-splice t start n source (omega arith)

  take-overwrite :
      (t source : List A)
      → length source ≤ length t
      → take (length source) (overwrite t source) ≡ source
  unfolding overwrite
  take-overwrite t [] h = refl
  take-overwrite [] (s ∷ source) h = absurd (omega arith)
  take-overwrite (x ∷ t) (s ∷ source) h = ap (λ r. s ∷ r) (take-overwrite t source (omega arith))

  take-drop-splice :
      (t : List A) (start : ℕ) (source : List A)
      → start + length source ≤ length t
      → take (length source) (drop start (splice t start source)) ≡ source
  unfolding splice
  take-drop-splice t zero source h = take-overwrite t source (omega arith)
  take-drop-splice [] (suc start) [] h = refl
  take-drop-splice [] (suc start) (s ∷ source) h = absurd (omega arith)
  take-drop-splice (x ∷ t) (suc start) source h = take-drop-splice t start source (omega arith)

  -- A write in range succeeds and keeps the length; the range then reads as written, and a range
  -- before or after it reads as before.
  pub record Written (E : Type 0) (t : List A) (start : ℕ) (source t' : List A) : Type ℓ where
    pub wide : length t' ≡ length t
    pub here : slice {E = E} t' start (start + length source) ≡ ok source
    pub before : (b e : ℕ) → e ≤ start → slice {E = E} t' b e ≡ slice t b e
    pub after : (b e : ℕ) → start + length source ≤ b → slice {E = E} t' b e ≡ slice t b e

  pub copy_into-Written :
      {E : Type 0} (t : List A) (start : ℕ) (source : List A)
      → start + length source ≤ length t
      → Returns (copy_into {E = E} t start source) (Written E t start source)
  unfolding copy_into slice
  copy_into-Written t start source h =
      let t' = splice t start source in
      let wide = length-splice t start source in
      (
        t',
        rw (le→leb (start + length source) (length t) h) refl,
        record {
          wide = wide;
          here =
              let width : start + length source - start ≡ length source = omega arith in
              rw
                (
                  le→leb start (start + length source) (omega arith),
                  le→leb (start + length source) (length t') (omega arith),
                  width,
                )
                (ap ok (take-drop-splice t start source h));
          before = λ b e le.
              rw (wide, take-drop b e t', take-drop b e t, take-splice t start e source le) refl;
          after = λ b e le. rw (wide, drop-splice t start b source le) refl;
        },
      )

  take_prefix :
      (e n : ℕ) (t rest : List A) → e ≤ n → e ≤ length t → take e (take n t ++ rest) ≡ take e t
  take_prefix zero n t rest h k = refl
  take_prefix (suc e) zero t rest h k = absurd (omega arith)
  take_prefix (suc e) (suc n) [] rest h k = absurd (omega arith)
  take_prefix (suc e) (suc n) (x ∷ t) rest h k =
      ap (λ r. x ∷ r) (take_prefix e n t rest (omega arith) (omega arith))

  -- What a list and its truncation, extended, have in common.
  pub slice_resized :
      {E : Type 0} (t rest : List A) (n b e : ℕ)
      → e ≤ n
      → e ≤ length t
      → e ≤ length (take n t ++ rest)
      → slice {E = E} (take n t ++ rest) b e ≡ slice t b e
  unfolding slice
  slice_resized t rest n b e h k long =
      rw
        (
          le→leb e (length t) k,
          le→leb e (length (take n t ++ rest)) long,
          take-drop b e (take n t ++ rest),
          take-drop b e t,
          take_prefix e n t rest h k,
        )
        refl

-- Filling a range is writing as many bytes.
pub fill_range-Written :
    {E : Type 0} (bytes : List ℕ) (start end n value : ℕ)
    → end ≡ start + n
    → end ≤ length bytes
    → Returns (fill_range {E = E} bytes start end value) (Written E bytes start (replicate n value))
unfolding fill_range
fill_range-Written {E} bytes start end n value e fits =
    let width : end - start ≡ n = omega arith in
    let (bytes', run, w) =
      copy_into-Written {E = E} bytes start (replicate n value)
        (omega (arith, length-replicate {A = ℕ} n value)) in
    (
      bytes',
      rw (le→leb start end (omega arith))
          (ap (λ k. copy_into {E = E} bytes start (replicate k value)) width ∙ run),
      w,
    )
