-- ===== src/Record/Page.antt =====
-- What `RecordFile` does with the bytes of one record page: `initialize_page`, `ensure_slot_used`,
-- and `insert`, `get`, `update` and `delete` between the fetch of the page and its release. The
-- file's `slots_per_page` and `record_size` are arguments; an operation that fails gives no page.
pub mod Reads
pub mod Updates
pub mod Writes
pub mod Inserts
pub mod Inserted
pub mod Deletes
pub mod Deleted
pub mod Initialized
use rs_redbase.Prelude.{
  ℕ, zero, suc, ◌+◌, ◌-◌, ◌*◌, Bool, true, false, ltb, leb, ◌==◌, Option, length, if◌then◌else◌,
  Result, ok, err, panicked, ok_or, ◌>>=◌, ◌>>◌,
}
use rs_redbase.Prelude.Int.{ℤ, of_u32}
use rs_redbase.Prelude.Bytes.{Bytes, slice, copy_into, fill_range}
use rs_redbase.Record.Types.{Rid, RecordError, invalid_rid, empty_slot, corrupted}
use rs_redbase.Record.Layout.{
  page_data_size, bitmap_bytes, used_bytes, record_range, ensure_record_length,
}
use rs_redbase.Record.Bitmap.{slot_is_free, set_slot_free, find_first_free_slot}
use rs_redbase.Record.FileHeader.{record_page_full}
use rs_redbase.Record.PageHeader.{RecordPageHeader, read_page_header}
use rs_redbase.Record.PageHeader

-- A call on `&mut bytes[start..end]`.
unfoldable pub within :
    Bytes → ℕ → ℕ → (Bytes → Result RecordError Bytes) → Result RecordError Bytes
within bytes start end change = do
  part ← slice bytes start end
  part' ← change part
  copy_into bytes start part'

-- `bytes[start..end].copy_from_slice(payload)`: another length panics.
abbrev pub copy_range : Bytes → ℕ → ℕ → Bytes → Result RecordError Bytes
copy_range bytes start end payload =
    if end - start == length payload then copy_into bytes start payload else panicked

abbrev pub bitmap_end : ℕ → ℕ
bitmap_end slots_per_page = 12 + bitmap_bytes slots_per_page

unfoldable pub initialize_page : Bytes → RecordPageHeader → ℕ → ℕ → Result RecordError Bytes
initialize_page bytes header slots_per_page record_size = do
  bytes ← fill_range bytes 0 (length bytes) 0
  bytes ← within bytes 0 12 (PageHeader.encode header)
  bytes ← fill_range bytes 12 (bitmap_end slots_per_page) 255
  if ltb page_data_size (used_bytes slots_per_page record_size)
      then err (corrupted "record layout exceeds page capacity")
      else ok bytes

unfoldable pub ensure_slot_used : ℕ → Rid → RecordPageHeader → Bytes → Result RecordError (Unit {0})
ensure_slot_used slots_per_page rid page_header bytes =
    if leb page_header.num_slots rid.slot_id then err (invalid_rid rid) else do
      bitmap ← slice bytes 12 (bitmap_end slots_per_page)
      is_free ← slot_is_free bitmap rid.slot_id
      if is_free then err (empty_slot rid) else ok tt

-- The part of a file's header that the operations change, and whether it must be written.
pub record FreeList : Type 0 where
  pub first_free_page : ℤ
  pub header_dirty : Bool

unfoldable pub take_slot :
    ℕ → ℕ → FreeList → Bytes → Bytes → Result RecordError (ℕ × Bytes × FreeList)
take_slot slots_per_page record_size free_list payload bytes = do
  page_header ← read_page_header slots_per_page bytes
  PageHeader.validate page_header slots_per_page
  bitmap ← slice bytes 12 (bitmap_end slots_per_page)
  found ← find_first_free_slot bitmap slots_per_page
  slot_id ← ok_or found (corrupted "free-page chain points to a full page")
  bytes ← within bytes 12 (bitmap_end slots_per_page) (λ b. set_slot_free b slot_id false)
  elim page_header.num_free_slots [
    | zero ↦ err (corrupted "page free-slot counter underflow")
    | suc num_free_slots ↦ do
      (start, end) ← record_range slots_per_page record_size slot_id
      bytes ← copy_range bytes start end payload
      let full = num_free_slots == 0
      bytes ← within bytes 0 12 (
          PageHeader.encode (record {
            next_free_page = if full then record_page_full else page_header.next_free_page;
            num_slots = page_header.num_slots;
            num_free_slots = num_free_slots;
          }))
      ok (
        slot_id,
        bytes,
        if full
            then record { first_free_page = page_header.next_free_page; header_dirty = true }
            else free_list,
      )
  ]

unfoldable pub get_slot : ℕ → ℕ → Rid → Bytes → Result RecordError Bytes
get_slot slots_per_page record_size rid bytes = do
  page_header ← read_page_header slots_per_page bytes
  ensure_slot_used slots_per_page rid page_header bytes
  (start, end) ← record_range slots_per_page record_size rid.slot_id
  slice bytes start end

unfoldable pub update_slot : ℕ → ℕ → Rid → Bytes → Bytes → Result RecordError Bytes
update_slot slots_per_page record_size rid payload bytes = do
  page_header ← read_page_header slots_per_page bytes
  ensure_slot_used slots_per_page rid page_header bytes
  (start, end) ← record_range slots_per_page record_size rid.slot_id
  copy_range bytes start end payload

unfoldable pub free_slot : ℕ → ℕ → FreeList → Rid → Bytes → Result RecordError (Bytes × FreeList)
free_slot slots_per_page record_size free_list rid bytes = do
  page_header ← read_page_header slots_per_page bytes
  ensure_slot_used slots_per_page rid page_header bytes
  let was_full = page_header.num_free_slots == 0
  bytes ← within bytes 12 (bitmap_end slots_per_page) (λ b. set_slot_free b rid.slot_id true)
  if leb 4294967295 page_header.num_free_slots
      then err (corrupted "page free-slot counter overflow")
      else do
        (start, end) ← record_range slots_per_page record_size rid.slot_id
        bytes ← fill_range bytes start end 0
        bytes ← within bytes 0 12 (
            PageHeader.encode (record {
              next_free_page =
                  if was_full then free_list.first_free_page else page_header.next_free_page;
              num_slots = page_header.num_slots;
              num_free_slots = suc page_header.num_free_slots;
            }))
        ok (
          bytes,
          if was_full
              then record { first_free_page = of_u32 rid.page_id; header_dirty = true }
              else free_list,
        )
