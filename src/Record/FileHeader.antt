-- ===== src/Record/FileHeader.antt =====
-- `RecordFileHeader` of storage/record.
pub mod RoundTrip
use rs_redbase.Prelude.{
  ℕ, ◌%◌, Bool, not, ◌&&◌, ltb, leb, ◌==◌, length, replicate, if◌then◌else◌, Result, ok, err, ◌>>=◌,
  ◌>>◌,
}
use rs_redbase.Prelude.Int.{ℤ, negsuc, to_u32, eqb_ℤ, ltb_ℤ}
use rs_redbase.Prelude.Bytes.{
  Bytes, slice, copy_into, u32_to_le_bytes, u32_from_le_bytes, i32_to_le_bytes, i32_from_le_bytes,
}
use rs_redbase.Record.Types.{RecordError, invalid_record_size, corrupted}
use rs_redbase.Record.Layout.{compute_slots_per_page}

abbrev pub record_file_header_size : ℕ
record_file_header_size = 16

-- -1 and -2.
abbrev pub record_page_list_end : ℤ
record_page_list_end = negsuc 0

abbrev pub record_page_full : ℤ
record_page_full = negsuc 1

pub record RecordFileHeader : Type 0 where
  pub record_size : ℕ
  pub slots_per_page : ℕ
  pub first_free_page : ℤ
  pub num_pages : ℕ

unfoldable pub new : ℕ → Result RecordError RecordFileHeader
new record_size = if record_size == 0 then err (invalid_record_size record_size) else do
  slots_per_page ← compute_slots_per_page record_size
  ok (record {
    record_size = record_size % 4294967296;
    slots_per_page = slots_per_page % 4294967296;
    first_free_page = record_page_list_end;
    num_pages = 0;
  })

unfoldable pub encode : RecordFileHeader → Result RecordError Bytes
encode header = do
  buf ← copy_into (replicate 16 0) 0 (u32_to_le_bytes header.record_size)
  buf ← copy_into buf 4 (u32_to_le_bytes header.slots_per_page)
  buf ← copy_into buf 8 (i32_to_le_bytes header.first_free_page)
  copy_into buf 12 (u32_to_le_bytes header.num_pages)

unfoldable pub validate : RecordFileHeader → Result RecordError (Unit {0})
validate header =
    if header.record_size == 0 then err (corrupted "record size must be greater than zero") else do
      expected_slots ← compute_slots_per_page header.record_size
      if not (header.slots_per_page == expected_slots)
          then err (corrupted "stored slots_per_page does not match record size")
          else if ltb_ℤ header.first_free_page record_page_list_end
          then err (corrupted "first_free_page is smaller than the free-list sentinel")
          else if not (eqb_ℤ header.first_free_page record_page_list_end)
              && ltb header.num_pages (to_u32 header.first_free_page)
          then err (corrupted "first_free_page points outside the data-page range")
          else ok tt

unfoldable pub decode : Bytes → Result RecordError RecordFileHeader
decode buf =
    if ltb (length buf) record_file_header_size
    then err (corrupted "header page is too short")
    else do
      raw_size ← slice buf 0 4
      record_size ← u32_from_le_bytes raw_size
      raw_slots ← slice buf 4 8
      slots_per_page ← u32_from_le_bytes raw_slots
      raw_free ← slice buf 8 12
      first_free_page ← i32_from_le_bytes raw_free
      raw_pages ← slice buf 12 16
      num_pages ← u32_from_le_bytes raw_pages
      let header : RecordFileHeader = record {
        record_size = record_size;
        slots_per_page = slots_per_page;
        first_free_page = first_free_page;
        num_pages = num_pages;
      }
      validate header >> ok header
