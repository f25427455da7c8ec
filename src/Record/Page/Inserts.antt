-- ===== src/Record/Page/Inserts.antt =====
-- `RecordFile::insert` of storage/record on a page: what it needs and what it leaves.
use rs_redbase.Prelude.{
  ℕ, zero, suc, ◌<◌, ◌≡◌, ◌≢◌, refl, true, false, leb, ◌==◌, length, some, if◌then◌else◌, arith,
  Result, ok, err, ◌>>=◌,
}
use rs_redbase.Prelude.Int.{negsuc}
use rs_redbase.Prelude.Bytes.{Bytes, slice}
use rs_redbase.Record.Types.{Rid, RecordError, empty_slot, invalid_rid}
use rs_redbase.Record.Layout.{bitmap_bytes, page_data_size, compute_slots_per_page, record_range}
use rs_redbase.Record.Bitmap.{slot_is_free, find_first_free_slot}
use rs_redbase.Record.FileHeader.{record_page_full}
use rs_redbase.Record.PageHeader.{RecordPageHeader, read_page_header}
use rs_redbase.Record.PageHeader
use rs_redbase.Record.PageHeader.RoundTrip.{IsStored}
use rs_redbase.Record.Page.{bitmap_end, ensure_slot_used, get_slot}
use rs_redbase.Record.Page.Reads.{bind_same}

-- A well-formed page: its header, and a bitmap of a bit for each slot.
pub record IsPage (slots size : ℕ) (h : RecordPageHeader) (bytes : Bytes) : Type 0 where
  pub wide : length bytes ≡ page_data_size
  pub layout : compute_slots_per_page size ≡ ok slots
  pub header : read_page_header slots bytes ≡ ok h
  pub count : h.num_slots ≡ slots
  pub valid : PageHeader.validate h slots ≡ ok tt
  pub stored : IsStored h
  pub bitmap : Bytes
  pub long : length bitmap ≡ bitmap_bytes slots
  pub read : slice {E = RecordError} bytes 12 (bitmap_end slots) ≡ ok bitmap

-- A page with a free slot, as `take_slot` finds it.
pub record Open (slots size : ℕ) (bytes : Bytes) (slot : ℕ) : Type 0 where
  pub wide : length bytes ≡ page_data_size
  pub layout : compute_slots_per_page size ≡ ok slots
  pub h : RecordPageHeader
  pub header : read_page_header slots bytes ≡ ok h
  pub valid : PageHeader.validate h slots ≡ ok tt
  pub stored : IsStored h
  pub bitmap : Bytes
  pub long : length bitmap ≡ bitmap_bytes slots
  pub read : slice {E = RecordError} bytes 12 (bitmap_end slots) ≡ ok bitmap
  pub found : find_first_free_slot {E = RecordError} bitmap slots ≡ ok (some slot)
  pub inside : slot < slots
  pub left : ℕ
  pub counted : h.num_free_slots ≡ suc left

-- The header after an insert: one free slot less, and when none is left the page is marked full.
pub record OneLess (h h' : RecordPageHeader) : Type 0 where
  pub one_less : h.num_free_slots ≡ suc h'.num_free_slots
  pub full : h'.num_free_slots ≡ 0 → h'.next_free_page ≡ negsuc 1
  pub listed : h'.num_free_slots ≢ 0 → h'.next_free_page ≡ h.next_free_page

abbrev pub next_header : RecordPageHeader → ℕ → RecordPageHeader
next_header h left = record {
  next_free_page = if left == 0 then record_page_full else h.next_free_page;
  num_slots = h.num_slots;
  num_free_slots = left;
}

pub next_header-OneLess :
    (h : RecordPageHeader) (left : ℕ) → h.num_free_slots ≡ suc left → OneLess h (next_header h left)
next_header-OneLess h zero counted = record {
  one_less = counted;
  full = λ e. refl;
  listed = λ more. absurd (more refl);
}
next_header-OneLess h (suc left) counted = record {
  one_less = counted;
  full = λ e. absurd (omega arith);
  listed = λ more. let rest : suc left == 0 ≡ false = ground arith in rw rest refl;
}

pub next_header_valid :
    (h : RecordPageHeader) (slots left : ℕ)
    → h.num_free_slots ≡ suc left
    → PageHeader.validate h slots ≡ ok tt
    → PageHeader.validate (next_header h left) slots ≡ ok tt
unfolding PageHeader.validate
next_header_valid h slots left counted valid = ground arith

pub next_header-IsStored :
    (h : RecordPageHeader) (left : ℕ)
    → h.num_free_slots ≡ suc left
    → IsStored h
    → IsStored (next_header h left)
next_header-IsStored h zero counted stored = (omega arith, stored.1, omega arith)
next_header-IsStored h (suc left) counted stored =
    let more : suc left == 0 ≡ false = ground arith in (rw more stored.0, stored.1, omega arith)

-- What inserting a record leaves of a page with the header `h`.
pub record Inserted (slots size slot : ℕ) (h : RecordPageHeader) (payload bytes bytes' : Bytes)
    : Type 0 where
  pub h' : RecordPageHeader
  pub page : IsPage slots size h' bytes'
  pub header : OneLess h h'
  -- The slot was free, and reads as the record.
  pub free : (rid : Rid) → rid.slot_id ≡ slot → get_slot slots size rid bytes ≡ err (empty_slot rid)
  pub here : (rid : Rid) → rid.slot_id ≡ slot → get_slot slots size rid bytes' ≡ ok payload
  -- Every other slot reads as before, an error included.
  pub others :
      (rid : Rid)
      → rid.slot_id ≢ slot
      → get_slot slots size rid bytes' ≡ get_slot slots size rid bytes

-- Reading a slot, by what the header, the bitmap and the range hold.
pub by_parts :
    (slots size : ℕ) (rid : Rid) (bytes bitmap payload : Bytes) (h : RecordPageHeader)
    → rid.slot_id < slots
    → read_page_header slots bytes ≡ ok h
    → h.num_slots ≡ slots
    → slice {E = RecordError} bytes 12 (bitmap_end slots) ≡ ok bitmap
    → slot_is_free {E = RecordError} bitmap rid.slot_id ≡ ok false
    → (start end : ℕ) → record_range slots size rid.slot_id ≡ ok (start, end)
    → slice {E = RecordError} bytes start end ≡ ok payload
    → get_slot slots size rid bytes ≡ ok payload
unfolding get_slot ensure_slot_used
by_parts slots size rid bytes bitmap payload h inside header count read used start end range part =
    let valid : leb h.num_slots rid.slot_id ≡ false = ground arith in
    rw (header, valid, read, used, range) part

pub free_by_parts :
    (slots size : ℕ) (rid : Rid) (bytes bitmap : Bytes) (h : RecordPageHeader)
    → rid.slot_id < slots
    → read_page_header slots bytes ≡ ok h
    → h.num_slots ≡ slots
    → slice {E = RecordError} bytes 12 (bitmap_end slots) ≡ ok bitmap
    → slot_is_free {E = RecordError} bitmap rid.slot_id ≡ ok true
    → get_slot slots size rid bytes ≡ err (empty_slot rid)
unfolding get_slot ensure_slot_used
free_by_parts slots size rid bytes bitmap h inside header count read free =
    let valid : leb h.num_slots rid.slot_id ≡ false = ground arith in
    rw (header, valid, read, free) refl

abbrev ensure_used : Rid → RecordPageHeader → Bytes → Result RecordError (Unit {0})
ensure_used rid h bitmap =
    if leb h.num_slots rid.slot_id
    then err (invalid_rid rid)
    else (slot_is_free bitmap rid.slot_id >>= λ free. if free then err (empty_slot rid) else ok tt)

-- Two pages of which the headers count as many slots, the bitmap holds the same bit for a slot and
-- the slot's range holds the same bytes read the same at it.
pub same_by_parts :
    (slots size : ℕ) (rid : Rid) (bytes bytes' bitmap bitmap' : Bytes) (h h' : RecordPageHeader)
    → read_page_header slots bytes ≡ ok h
    → read_page_header slots bytes' ≡ ok h'
    → h.num_slots ≡ h'.num_slots
    → slice {E = RecordError} bytes 12 (bitmap_end slots) ≡ ok bitmap
    → slice {E = RecordError} bytes' 12 (bitmap_end slots) ≡ ok bitmap'
    → slot_is_free {E = RecordError} bitmap' rid.slot_id
      ≡ slot_is_free {E = RecordError} bitmap rid.slot_id
    → ((start end : ℕ)
        → record_range slots size rid.slot_id ≡ ok (start, end)
        → slice {E = RecordError} bytes' start end ≡ slice bytes start end)
    → get_slot slots size rid bytes' ≡ get_slot slots size rid bytes
unfolding get_slot ensure_slot_used
same_by_parts slots size rid bytes bytes' bitmap bitmap' h h' header header' count read read' bit
      ranges =
    rw (header, header', count, read, read', bit)
      (bind_same (ensure_used rid h' bitmap) _ _ (λ u _.
        bind_same (record_range slots size rid.slot_id) _ _
          (λ (start, end) at. ranges start end at)))
