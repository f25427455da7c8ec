-- ===== src/Prelude/Bytes/Compare.antt =====
-- The order and the equality of byte slices and of text.
use Prim.Native.Nat.{ℕ, compare, Ordering}
use mathlib.Core.Path.{◌≡◌, refl}
use mathlib.Core.Bool.{Bool, true, false, ◌&&◌}
use mathlib.Core.List.{List, [], ◌∷◌}
use native.Mathlib.Omega.{arith}
use rs_redbase.Prelude.Tests.{◌==◌}

-- `Ordering::then_with`.
abbrev pub then_with : Ordering → Ordering → Ordering
then_with Ordering.lt o = Ordering.lt
then_with Ordering.eq o = o
then_with Ordering.gt o = Ordering.gt

-- `Ordering::reverse`.
abbrev pub reverse_ordering : Ordering → Ordering
reverse_ordering Ordering.lt = Ordering.gt
reverse_ordering Ordering.eq = Ordering.eq
reverse_ordering Ordering.gt = Ordering.lt

-- `<[u8]>::cmp` and `str::cmp`: lexicographic.
unfoldable pub compare_bytes : List ℕ → List ℕ → Ordering
compare_bytes [] [] = Ordering.eq
compare_bytes [] (b ∷ bs) = Ordering.lt
compare_bytes (a ∷ as') [] = Ordering.gt
compare_bytes (a ∷ as') (b ∷ bs) = then_with (compare a b) (compare_bytes as' bs)

unfoldable pub eq_bytes : List ℕ → List ℕ → Bool
eq_bytes [] [] = true
eq_bytes [] (b ∷ bs) = false
eq_bytes (a ∷ as') [] = false
eq_bytes (a ∷ as') (b ∷ bs) = a == b && eq_bytes as' bs

pub eq_bytes→eq : (a b : List ℕ) → eq_bytes a b ≡ true → a ≡ b
unfolding eq_bytes
eq_bytes→eq [] [] h = refl
eq_bytes→eq [] (b ∷ bs) h = cc
eq_bytes→eq (a ∷ as') [] h = cc
eq_bytes→eq (a ∷ as') (b ∷ bs) h = ground (arith, eq_bytes→eq as' bs)

pub eq_bytes_refl : (a : List ℕ) → eq_bytes a a ≡ true
unfolding eq_bytes
eq_bytes_refl [] = refl
eq_bytes_refl (a ∷ as') = ground (arith, eq_bytes_refl as')

pub compare_bytes_refl : (a : List ℕ) → compare_bytes a a ≡ Ordering.eq
unfolding compare_bytes
compare_bytes_refl [] = refl
compare_bytes_refl (a ∷ as') = ground (arith, compare_bytes_refl as')

pub compare_bytes-eq : (a b : List ℕ) → compare_bytes a b ≡ Ordering.eq → a ≡ b
unfolding compare_bytes
compare_bytes-eq [] [] h = refl
compare_bytes-eq [] (b ∷ bs) h = cc
compare_bytes-eq (a ∷ as') [] h = cc
compare_bytes-eq (a ∷ as') (b ∷ bs) h = ground (arith, compare_bytes-eq as' bs)

pub compare_bytes_flip : (a b : List ℕ) → compare_bytes b a ≡ reverse_ordering (compare_bytes a b)
unfolding compare_bytes
compare_bytes_flip [] [] = refl
compare_bytes_flip [] (b ∷ bs) = refl
compare_bytes_flip (a ∷ as') [] = refl
compare_bytes_flip (a ∷ as') (b ∷ bs) = ground (arith, compare_bytes_flip as' bs)
