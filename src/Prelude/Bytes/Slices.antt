-- ===== src/Prelude/Bytes/Slices.antt =====
-- `&bytes[start..end]`, `copy_from_slice` into a range, and `fill` of a range; out of range panics.
pub mod Disjoint
use Prim.Native.Nat.{ℕ, zero, suc, ◌+◌, ◌-◌, ◌≤◌}
use mathlib.Core.Path.{◌≡◌, refl, ap}
use mathlib.Core.Bool.{◌&&◌}
use mathlib.Core.List.{List, [], ◌∷◌, ◌++◌}
use native.Mathlib.Omega.{arith}
use rs_redbase.Prelude.Tests.{leb, if◌then◌else◌, le→leb}
use rs_redbase.Prelude.Lists.{
  length, take, drop, replicate, length-append, length-take, length-drop, take_exact, drop_exact,
}
use rs_redbase.Prelude.Outcome.{Result, ok, panicked}

module _ {ℓ} {A : Type ℓ} where
  unfoldable pub slice : {E : Type 0} → List A → ℕ → ℕ → Result E (List A)
  slice bytes start end =
      if leb start end && leb end (length bytes)
      then ok (take (end - start) (drop start bytes))
      else panicked

  overwrite : List A → List A → List A
  overwrite [] source = []
  overwrite (t ∷ target) [] = t ∷ target
  overwrite (t ∷ target) (s ∷ source) = s ∷ overwrite target source

  pub splice : List A → ℕ → List A → List A
  unfolding overwrite
  splice target zero source = overwrite target source
  splice [] (suc n) source = []
  splice (t ∷ target) (suc n) source = t ∷ splice target n source

  -- `target[start..start + source.len()].copy_from_slice(source)`.
  unfoldable pub copy_into : {E : Type 0} → List A → ℕ → List A → Result E (List A)
  unfolding splice
  copy_into target start source =
      if leb (start + length source) (length target)
      then ok (splice target start source)
      else panicked

  -- `target[start..end].fill(value)`.
  unfoldable pub fill_range : {E : Type 0} → List A → ℕ → ℕ → A → Result E (List A)
  unfolding copy_into
  fill_range target start end value =
      if leb start end then copy_into target start (replicate (end - start) value) else panicked

  length-overwrite : (target source : List A) → length (overwrite target source) ≡ length target
  unfolding overwrite
  length-overwrite [] source = refl
  length-overwrite (t ∷ target) [] = refl
  length-overwrite (t ∷ target) (s ∷ source) = ap suc (length-overwrite target source)

  pub length-splice :
      (target : List A) (n : ℕ) (source : List A) → length (splice target n source) ≡ length target
  unfolding splice
  length-splice [] zero source = refl
  length-splice (t ∷ target) zero source = length-overwrite (t ∷ target) source
  length-splice [] (suc n) source = refl
  length-splice (t ∷ target) (suc n) source = ap suc (length-splice target n source)

  overwrite_exact :
      (old source rest : List A)
      → length old ≡ length source
      → overwrite (old ++ rest) source ≡ source ++ rest
  unfolding overwrite
  overwrite_exact [] [] [] h = refl
  overwrite_exact [] [] (r ∷ rest) h = refl
  overwrite_exact [] (s ∷ source) rest h = absurd (omega arith)
  overwrite_exact (o ∷ old) [] rest h = absurd (omega arith)
  overwrite_exact (o ∷ old) (s ∷ source) rest h =
      ap (λ t. s ∷ t) (overwrite_exact old source rest (omega arith))

  splice_exact :
      (before old source rest : List A)
      → length old ≡ length source
      → splice (before ++ (old ++ rest)) (length before) source ≡ before ++ (source ++ rest)
  unfolding splice
  splice_exact [] old source rest h = overwrite_exact old source rest h
  splice_exact (b ∷ before) old source rest h =
      ap (λ t. b ∷ t) (splice_exact before old source rest h)

  -- A write that fits replaces exactly the bytes of its range.
  pub copy_into_exact :
      {E : Type 0} (before old source rest : List A) (start : ℕ)
      → start ≡ length before
      → length old ≡ length source
      → copy_into {E = E} (before ++ (old ++ rest)) start source ≡ ok (before ++ (source ++ rest))
  unfolding copy_into
  copy_into_exact before old source rest start at h =
      rw
        (
          at,
          le→leb (length before + length source) (length (before ++ (old ++ rest)))
              (omega (arith, length-append before (old ++ rest), length-append old rest)),
        )
        (ap ok (splice_exact before old source rest h))

  -- A read of a range returns exactly its bytes.
  pub slice_exact :
      {E : Type 0} (before part rest : List A) (start end : ℕ)
      → start ≡ length before
      → end ≡ length before + length part
      → slice {E = E} (before ++ (part ++ rest)) start end ≡ ok part
  unfolding slice
  slice_exact before part rest start end at to =
      let total = length (before ++ (part ++ rest)) in
      let fits : end ≤ total =
        omega (arith, length-append before (part ++ rest), length-append part rest) in
      let width : end - start ≡ length part = omega arith in
      rw (le→leb start end (omega arith), le→leb end total fits, width, at, drop_exact, take_exact)

  -- A read in range returns as many bytes as the range has.
  pub slice_total :
      {E : Type 0} (bytes : List A) (start end : ℕ)
      → start ≤ end
      → end ≤ length bytes
      → (part : List A) × (slice {E = E} bytes start end ≡ ok part) × (length part ≡ end - start)
  unfolding slice
  slice_total bytes start end h k = (
    take (end - start) (drop start bytes),
    rw (le→leb start end h, le→leb end (length bytes) k),
    omega (arith, length-take (end - start) (drop start bytes), length-drop start bytes),
  )
