-- ===== src/Examples/Pages.antt =====
-- Pages of 16-byte records.
use rs_redbase.Prelude.{
  ℕ, ◌+◌, ◌≡◌, ◌≢◌, ◌≤◌, ◌<◌, ◌⊎◌, refl, List, [], ◌∷◌, ◌++◌, arith, ok, err, Returns, length,
  false,
}
use rs_redbase.Prelude.Int.{negsuc}
use rs_redbase.Record.Types.{RecordError, record_too_large}
use rs_redbase.Record.Layout.{
  bitmap_bytes, page_data_size, fit_slots, compute_slots_per_page, record_range,
}
use rs_redbase.Record.Layout.Slots.{Fits, compute_slots_per_page-most, record_range-disjoint}
use rs_redbase.Record.Bitmap.{
  test_bit, with_bit, without_bit, slot_is_free, set_slot_free, find_free_from,
  find_first_free_slot,
}
use rs_redbase.Record.Bitmap.Bits.{set_slot_free-reads, FoundFrom, find_first_free_slot-first}
use rs_redbase.Record.FileHeader.{RecordFileHeader, new, encode, decode, validate}
use rs_redbase.Record.FileHeader.RoundTrip.{IsStored, decode-encode, new-validate}

-- All that a run of this module computes through.
program : Unit {0}
unfolding fit_slots compute_slots_per_page record_range test_bit with_bit without_bit slot_is_free
    set_slot_free find_free_from find_first_free_slot new validate
program = tt

student_slots : compute_slots_per_page 16 ≡ ok 253
unfolding program
student_slots = refl

too_large : compute_slots_per_page 4092 ≡ err (record_too_large 4092)
unfolding program
too_large = refl

compute_slots_per_page-most_example :
    Returns
      (compute_slots_per_page 16)
      (λ slots. (0 < slots) × Fits 16 slots × ((m : ℕ) → Fits 16 m → m ≤ slots))
    ⊎ ((compute_slots_per_page 16 ≡ err (record_too_large 16)) × ((m : ℕ) → Fits 16 m → m ≡ 0))
compute_slots_per_page-most_example = compute_slots_per_page-most 16 (omega arith)

record_range-disjoint_example :
    (s s' : ℕ) × (record_range 253 16 1 ≡ ok (s, s + 16))
    × (record_range 253 16 252 ≡ ok (s', s' + 16))
    × (12 + bitmap_bytes 253 ≤ s)
    × (s + 16 ≤ s')
    × (s' + 16 ≤ page_data_size)
record_range-disjoint_example =
    record_range-disjoint 16 253 1 252 student_slots (omega arith) (omega arith)

-- Slots 1 and 9 of twelve are free.
abbrev bitmap : List ℕ
bitmap = 2 ∷ 2 ∷ []

set_slot_free-reads_example : Returns (set_slot_free {E = RecordError} bitmap 9 false) (λ bitmap'.
    (length bitmap' ≡ length bitmap)
    × (slot_is_free {E = RecordError} bitmap' 9 ≡ ok false)
    × ((j : ℕ)
        → j ≢ 9
        → slot_is_free {E = RecordError} bitmap' j ≡ slot_is_free {E = RecordError} bitmap j))
set_slot_free-reads_example = set_slot_free-reads bitmap 9 false (omega arith)

find_first_free_slot-first_example :
    Returns (find_first_free_slot {E = RecordError} bitmap 12) (FoundFrom bitmap 0 12)
find_first_free_slot-first_example = find_first_free_slot-first bitmap 12 (omega arith)

abbrev header : RecordFileHeader
header = record {
  record_size = 16;
  slots_per_page = 253;
  first_free_page = negsuc 0;
  num_pages = 0;
}

header_is_new : new 16 ≡ ok header
unfolding program
header_is_new = refl

header_valid : validate header ≡ ok tt
unfolding program
header_valid = refl

new-validate_example :
    (header.record_size ≡ 16)
    × (compute_slots_per_page 16 ≡ ok 253)
    × (header.num_pages ≡ 0)
    × (validate header ≡ ok tt)
    × IsStored header
new-validate_example = new-validate 16 header header_is_new

decode-encode_example :
    Returns
      (encode header)
      (λ bytes. (length bytes ≡ 16) × (decode (bytes ++ (1 ∷ 2 ∷ [])) ≡ ok header))
decode-encode_example =
    decode-encode header (1 ∷ 2 ∷ []) (omega arith, omega arith, omega arith, omega arith)
      header_valid
