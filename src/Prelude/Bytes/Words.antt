-- ===== src/Prelude/Bytes/Words.antt =====
-- `to_le_bytes` and `from_le_bytes` of `u32` and `i32`.
use Prim.Native.Nat.{ℕ, ◌+◌, ◌*◌, ◌/◌, ◌%◌, ◌<◌}
use mathlib.Core.Path.{◌≡◌, refl, ap}
use mathlib.Core.List.{List, [], ◌∷◌}
use native.Mathlib.Omega.{arith}
use rs_redbase.Prelude.Lists.{length, All}
use rs_redbase.Prelude.Outcome.{Result, ok, panicked, ◌>>=◌}
use rs_redbase.Prelude.Int.{ℤ, to_u32, of_u32, IsI32, of_u32-to_u32, to_u32-lt}

abbrev pub Bytes : Type 0
Bytes = List ℕ

abbrev pub IsByte : ℕ → Type 0
IsByte b = b < 256

unfoldable pub u32_to_le_bytes : ℕ → Bytes
u32_to_le_bytes w = w % 256 ∷ w / 256 % 256 ∷ w / 65536 % 256 ∷ w / 16777216 % 256 ∷ []

-- `u32::from_le_bytes(slice.try_into().expect(…))`: a slice of another length panics.
unfoldable pub u32_from_le_bytes : {E : Type 0} → Bytes → Result E ℕ
u32_from_le_bytes (a ∷ b ∷ c ∷ d ∷ []) = ok (a + 256 * b + 65536 * c + 16777216 * d)
u32_from_le_bytes bytes = panicked

unfoldable pub i32_to_le_bytes : ℤ → Bytes
i32_to_le_bytes z = u32_to_le_bytes (to_u32 z)

unfoldable pub i32_from_le_bytes : {E : Type 0} → Bytes → Result E ℤ
i32_from_le_bytes bytes = do w ← u32_from_le_bytes bytes; ok (of_u32 w)

pub u32_from_le_bytes-to :
    {E : Type 0} (w : ℕ) → w < 4294967296 → u32_from_le_bytes {E = E} (u32_to_le_bytes w) ≡ ok w
unfolding u32_from_le_bytes u32_to_le_bytes
u32_from_le_bytes-to w h = ap ok (omega arith)

pub i32_from_le_bytes-to :
    {E : Type 0} (z : ℤ) → IsI32 z → i32_from_le_bytes {E = E} (i32_to_le_bytes z) ≡ ok z
unfolding i32_from_le_bytes i32_to_le_bytes
i32_from_le_bytes-to z h =
    rw (u32_from_le_bytes-to (to_u32 z) (to_u32-lt z h)) (ap ok (of_u32-to_u32 z h))

pub length-u32_to_le_bytes : (w : ℕ) → length (u32_to_le_bytes w) ≡ 4
unfolding u32_to_le_bytes
length-u32_to_le_bytes w = refl

pub length-i32_to_le_bytes : (z : ℤ) → length (i32_to_le_bytes z) ≡ 4
unfolding i32_to_le_bytes u32_to_le_bytes
length-i32_to_le_bytes z = refl

pub u32_to_le_bytes-IsByte : (w : ℕ) → All IsByte (u32_to_le_bytes w)
unfolding u32_to_le_bytes
u32_to_le_bytes-IsByte w = omega arith

-- Four bytes are all that the decoders ask for.
pub u32_from_le_bytes_total :
    {E : Type 0} (bytes : Bytes)
    → length bytes ≡ 4
    → (w : ℕ) × (u32_from_le_bytes {E = E} bytes ≡ ok w)
unfolding u32_from_le_bytes
u32_from_le_bytes_total [] h = absurd (omega arith)
u32_from_le_bytes_total (a ∷ []) h = absurd (omega arith)
u32_from_le_bytes_total (a ∷ b ∷ []) h = absurd (omega arith)
u32_from_le_bytes_total (a ∷ b ∷ c ∷ []) h = absurd (omega arith)
u32_from_le_bytes_total (a ∷ b ∷ c ∷ d ∷ []) h = (_, refl)
u32_from_le_bytes_total (a ∷ b ∷ c ∷ d ∷ e ∷ r) h = absurd (omega arith)

pub i32_from_le_bytes_total :
    {E : Type 0} (bytes : Bytes)
    → length bytes ≡ 4
    → (z : ℤ) × (i32_from_le_bytes {E = E} bytes ≡ ok z)
unfolding i32_from_le_bytes
i32_from_le_bytes_total {E} bytes h =
    let (w, e) = u32_from_le_bytes_total {E = E} bytes h in (of_u32 w, rw e)
