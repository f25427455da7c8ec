-- ===== src/Record/Layout.antt =====
-- How records lie in a page: `compute_slots_per_page`, `bitmap_bytes`, `bitmap_range`,
-- `record_range` and the range checks of storage/record.
pub mod Slots
use rs_redbase.Prelude.{
  ℕ, zero, suc, ◌+◌, ◌*◌, ◌/◌, Bool, true, false, not, ◌||◌, ltb, leb, ◌==◌, if◌then◌else◌, Result,
  ok, err,
}
use rs_redbase.Record.Types.{
  Rid, RecordError, invalid_record_size, record_too_large, invalid_rid, size_mismatch, corrupted,
}

-- `PAGE_DATA_SIZE` of storage/page.
abbrev pub page_data_size : ℕ
page_data_size = 4092

abbrev pub record_page_header_size : ℕ
record_page_header_size = 12

-- `div_ceil(8)`.
abbrev pub bitmap_bytes : ℕ → ℕ
bitmap_bytes num_slots = (num_slots + 7) / 8

abbrev pub bitmap_range : ℕ → ℕ × ℕ
bitmap_range num_slots = (record_page_header_size, record_page_header_size + bitmap_bytes num_slots)

abbrev pub used_bytes : ℕ → ℕ → ℕ
used_bytes slots record_size = record_page_header_size + bitmap_bytes slots + slots * record_size

-- The loop down from the first guess.
unfoldable pub fit_slots : ℕ → ℕ → Result RecordError ℕ
fit_slots zero record_size = err (record_too_large record_size)
fit_slots (suc slots) record_size = elim (leb (used_bytes (suc slots) record_size) page_data_size) [
  | true ↦ ok (suc slots)
  | false ↦ fit_slots slots record_size
]

unfoldable pub compute_slots_per_page : ℕ → Result RecordError ℕ
compute_slots_per_page record_size =
    if record_size == 0
    then err (invalid_record_size record_size)
    else fit_slots (page_data_size / record_size) record_size

-- `record_range`, with the header's `slots_per_page` and `record_size`.
unfoldable pub record_range : ℕ → ℕ → ℕ → Result RecordError (ℕ × ℕ)
record_range slots_per_page record_size slot_index =
    if leb slots_per_page slot_index
    then err (corrupted "slot index is outside the page layout")
    else let data_start = record_page_header_size + bitmap_bytes slots_per_page in
      let start = data_start + slot_index * record_size in
      let end = start + record_size in
      if ltb page_data_size end
      then err (corrupted "record range exceeds page size")
      else ok (start, end)

-- `validate_rid`, with the header's `num_pages` and `slots_per_page`.
unfoldable pub validate_rid : ℕ → ℕ → Rid → Result RecordError (Unit {0})
validate_rid num_pages slots_per_page rid =
    if rid.page_id == 0 || ltb num_pages rid.page_id
    then err (invalid_rid rid)
    else if leb slots_per_page rid.slot_id
    then err (invalid_rid rid)
    else ok tt

unfoldable pub ensure_record_length : ℕ → ℕ → Result RecordError (Unit {0})
ensure_record_length expected actual =
    if not (actual == expected) then err (size_mismatch expected actual) else ok tt
