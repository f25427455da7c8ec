-- ===== src/Prelude/Int.antt =====
-- `i32`: signed integers over the native numbers, under the library's names. The value is kept as an
-- integer, and `IsI32` is its range.
use Prim.Native.Nat.{ℕ, ◌-◌, ◌<◌, compare, Ordering}
use mathlib.Core.Path.{◌≡◌}
use mathlib.Core.Bool.{Bool, true, false}
use native.Mathlib.Omega.{arith}
use rs_redbase.Prelude.Tests.{ltb, if◌then◌else◌}

-- `negsuc n` is -(n + 1).
pub data ℤ : Type 0 where
  pos : ℕ → ℤ
  negsuc : ℕ → ℤ

-- The bit pattern of an `i32`, `value as u32`, and back.
abbrev pub to_u32 : ℤ → ℕ
to_u32 (pos n) = n
to_u32 (negsuc n) = 4294967295 - n

abbrev pub of_u32 : ℕ → ℤ
of_u32 w = if ltb w 2147483648 then pos w else negsuc (4294967295 - w)

abbrev pub IsI32 : ℤ → Type 0
IsI32 (pos n) = n < 2147483648
IsI32 (negsuc n) = n < 2147483648

-- `i32::cmp`.
abbrev pub compare_ℤ : ℤ → ℤ → Ordering
compare_ℤ (pos a) (pos b) = compare a b
compare_ℤ (pos a) (negsuc b) = Ordering.gt
compare_ℤ (negsuc a) (pos b) = Ordering.lt
compare_ℤ (negsuc a) (negsuc b) = compare b a

-- `==` and `<` of `i32`.
abbrev pub eqb_ℤ : ℤ → ℤ → Bool
eqb_ℤ a b = elim (compare_ℤ a b) [ Ordering.eq ↦ true | _ ↦ false ]

abbrev pub ltb_ℤ : ℤ → ℤ → Bool
ltb_ℤ a b = elim (compare_ℤ a b) [ Ordering.lt ↦ true | _ ↦ false ]

pub of_u32-to_u32 : (z : ℤ) → IsI32 z → of_u32 (to_u32 z) ≡ z
of_u32-to_u32 (pos n) h = ground arith
of_u32-to_u32 (negsuc n) h = ground arith

pub to_u32-lt : (z : ℤ) → IsI32 z → to_u32 z < 4294967296
to_u32-lt (pos n) h = omega arith
to_u32-lt (negsuc n) h = omega arith

pub eqb_ℤ→eq : (a b : ℤ) → eqb_ℤ a b ≡ true → a ≡ b
eqb_ℤ→eq a b h = ground arith

pub eqb_ℤ_refl : (a : ℤ) → eqb_ℤ a a ≡ true
eqb_ℤ_refl a = ground arith
