-- ===== src/Record/PageHeader.antt =====
-- `RecordPageHeader` of storage/record.
pub mod RoundTrip
use rs_redbase.Prelude.{
  ℕ, ◌%◌, Bool, not, ◌&&◌, ltb, leb, ◌==◌, length, replicate, if◌then◌else◌, Result, ok, err, ◌>>=◌,
  ◌>>◌,
}
use rs_redbase.Prelude.Int.{ℤ, negsuc, to_u32, eqb_ℤ, ltb_ℤ}
use rs_redbase.Prelude.Bytes.{
  Bytes, slice, copy_into, u32_to_le_bytes, u32_from_le_bytes, i32_to_le_bytes, i32_from_le_bytes,
}
use rs_redbase.Record.Types.{RecordError, invalid_record_size, corrupted}
use rs_redbase.Record.Layout.{compute_slots_per_page}
use rs_redbase.Record.FileHeader.{record_page_list_end, record_page_full}

pub record RecordPageHeader : Type 0 where
  pub next_free_page : ℤ
  pub num_slots : ℕ
  pub num_free_slots : ℕ

unfoldable pub new : ℕ → RecordPageHeader
new num_slots = record {
  next_free_page = record_page_list_end;
  num_slots = num_slots % 4294967296;
  num_free_slots = num_slots % 4294967296;
}

-- Into the buffer.
unfoldable pub encode : RecordPageHeader → Bytes → Result RecordError Bytes
encode header buf = do
  buf ← copy_into buf 0 (i32_to_le_bytes header.next_free_page)
  buf ← copy_into buf 4 (u32_to_le_bytes header.num_slots)
  copy_into buf 8 (u32_to_le_bytes header.num_free_slots)

unfoldable pub decode : Bytes → Result RecordError RecordPageHeader
decode buf = if ltb (length buf) 12 then err (corrupted "record page header is too short") else do
  raw_next ← slice buf 0 4
  next_free_page ← i32_from_le_bytes raw_next
  raw_slots ← slice buf 4 8
  num_slots ← u32_from_le_bytes raw_slots
  raw_free ← slice buf 8 12
  num_free_slots ← u32_from_le_bytes raw_free
  ok (record {
    next_free_page = next_free_page;
    num_slots = num_slots;
    num_free_slots = num_free_slots;
  })

unfoldable pub validate : RecordPageHeader → ℕ → Result RecordError (Unit {0})
validate header expected_slots =
    if not (header.num_slots == expected_slots)
    then err (corrupted "record page slot count mismatch")
    else if ltb header.num_slots header.num_free_slots
    then err (corrupted "record page free-slot count exceeds total slots")
    else if ltb_ℤ header.next_free_page record_page_full
    then err (corrupted "record page next_free_page is invalid")
    else ok tt

-- `read_page_header`, with the header's `slots_per_page`.
unfoldable pub read_page_header : ℕ → Bytes → Result RecordError RecordPageHeader
read_page_header slots_per_page bytes = do
  raw ← slice bytes 0 12
  header ← decode raw
  validate header slots_per_page
  ok header
