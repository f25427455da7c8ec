-- ===== src/Record/Bitmap.antt =====
-- The slot bitmap of a record page: `slot_is_free`, `set_slot_free` and `find_first_free_slot`.
pub mod Bits
use rs_redbase.Prelude.{
  ℕ, zero, suc, ◌+◌, ◌*◌, ◌/◌, ◌%◌, ◌<◌, ◌≡◌, ◌≢◌, ◌⊎◌, inl, inr, refl, sym, ◌∙◌, ap, Bool, true,
  false, Option, none, some, List, [], ◌∷◌, get_elem?, set, get_elem?-set_self, get_elem?-set_ne,
  get_elem?_of_lt, length, length-set, ◌==◌, if◌then◌else◌, Result, ok, expect, Returns, ◌>>=◌,
  arith,
}
use rs_redbase.Prelude.Bytes.{Bytes}

-- `byte & (1 << k) != 0`, `byte | (1 << k)` and `byte & !(1 << k)`.
unfoldable pub test_bit : ℕ → ℕ → Bool
test_bit byte zero = byte % 2 == 1
test_bit byte (suc k) = test_bit (byte / 2) k

unfoldable pub with_bit : ℕ → ℕ → ℕ
with_bit byte zero = byte / 2 * 2 + 1
with_bit byte (suc k) = byte % 2 + 2 * with_bit (byte / 2) k

unfoldable pub without_bit : ℕ → ℕ → ℕ
without_bit byte zero = byte / 2 * 2
without_bit byte (suc k) = byte % 2 + 2 * without_bit (byte / 2) k

unfoldable pub slot_is_free : {E : Type 0} → Bytes → ℕ → Result E Bool
slot_is_free bitmap slot_index = do
  byte ← expect (get_elem? bitmap (slot_index / 8))
  ok (test_bit byte (slot_index % 8))

abbrev pub put_bit : Bool → ℕ → ℕ → ℕ
put_bit true byte k = with_bit byte k
put_bit false byte k = without_bit byte k

unfoldable pub set_slot_free : {E : Type 0} → Bytes → ℕ → Bool → Result E Bytes
set_slot_free bitmap slot_index is_free = do
  byte ← expect (get_elem? bitmap (slot_index / 8))
  ok (set bitmap (slot_index / 8) (put_bit is_free byte (slot_index % 8)))

-- `(start..start + n).find(…)`.
unfoldable pub find_free_from : {E : Type 0} → Bytes → ℕ → ℕ → Result E (Option ℕ)
find_free_from bitmap start zero = ok none
find_free_from bitmap start (suc n) = do
  free ← slot_is_free bitmap start
  elim free [ true ↦ ok (some start) | false ↦ find_free_from bitmap (suc start) n ]

unfoldable pub find_first_free_slot : {E : Type 0} → Bytes → ℕ → Result E (Option ℕ)
find_first_free_slot bitmap num_slots = find_free_from bitmap 0 num_slots
