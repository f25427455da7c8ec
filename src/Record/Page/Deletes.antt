-- ===== src/Record/Page/Deletes.antt =====
-- `RecordFile::delete` of storage/record on a page: what it needs and what it leaves.
use rs_redbase.Prelude.{
  ℕ, suc, refl, ◌+◌, ◌*◌, ◌≤◌, ◌<◌, ◌≡◌, ◌≢◌, inl, inr, sym, ◌∙◌, true, false, ◌==◌, length,
  Bool-cases, if◌then◌else◌, arith, ok, err,
}
use rs_redbase.Prelude.Int.{ℤ, IsI32, ltb_ℤ, of_u32}
use rs_redbase.Prelude.Bytes.{Bytes, slice, Written}
use rs_redbase.Record.Types.{Rid, RecordError, empty_slot}
use rs_redbase.Record.Layout.{bitmap_bytes, page_data_size, compute_slots_per_page, record_range}
use rs_redbase.Record.Layout.Slots.{span, slots-Fits, in_page}
use rs_redbase.Record.Bitmap.{slot_is_free}
use rs_redbase.Record.FileHeader.{record_page_full}
use rs_redbase.Record.PageHeader.{RecordPageHeader, read_page_header}
use rs_redbase.Record.PageHeader
use rs_redbase.Record.PageHeader.RoundTrip.{IsStored}
use rs_redbase.Record.Page.{bitmap_end, FreeList, get_slot}
use rs_redbase.Record.Page.Reads.{record_range-RangeAt}
use rs_redbase.Record.Page.Updates.{apart}
use rs_redbase.Record.Page.Writes.{HeaderWritten, SlotWritten}
use rs_redbase.Record.Page.Inserts.{IsPage, free_by_parts, same_by_parts}

-- A well-formed page on which a slot is used, so that not every slot is free.
pub record Used (slots size : ℕ) (bytes : Bytes) (slot : ℕ) : Type 0 where
  pub wide : length bytes ≡ page_data_size
  pub layout : compute_slots_per_page size ≡ ok slots
  pub h : RecordPageHeader
  pub header : read_page_header slots bytes ≡ ok h
  pub count : h.num_slots ≡ slots
  pub valid : PageHeader.validate h slots ≡ ok tt
  pub stored : IsStored h
  pub bitmap : Bytes
  pub long : length bitmap ≡ bitmap_bytes slots
  pub read : slice {E = RecordError} bytes 12 (bitmap_end slots) ≡ ok bitmap
  pub inside : slot < slots
  pub taken : slot_is_free {E = RecordError} bitmap slot ≡ ok false
  pub counted : h.num_free_slots < slots

-- The head of a free list: a page, or its end.
abbrev pub IsListed : ℤ → Type 0
IsListed page = IsI32 page × (ltb_ℤ page record_page_full ≡ false)

-- The header after a delete: one free slot more, and a page that had none comes before the pages that
-- are listed.
pub record OneMore (free_list : FreeList) (h h' : RecordPageHeader) : Type 0 where
  pub one_more : h'.num_free_slots ≡ suc h.num_free_slots
  pub joined : h.num_free_slots ≡ 0 → h'.next_free_page ≡ free_list.first_free_page
  pub stayed : h.num_free_slots ≢ 0 → h'.next_free_page ≡ h.next_free_page

abbrev pub freed_header : RecordPageHeader → FreeList → RecordPageHeader
freed_header h free_list = record {
  next_free_page = if h.num_free_slots == 0 then free_list.first_free_page else h.next_free_page;
  num_slots = h.num_slots;
  num_free_slots = suc h.num_free_slots;
}

-- The free list after a delete: a page that was full joins it.
abbrev pub after_delete : RecordPageHeader → FreeList → Rid → FreeList
after_delete h free_list rid =
    if h.num_free_slots == 0
    then record { first_free_page = of_u32 rid.page_id; header_dirty = true }
    else free_list

pub freed_header-OneMore :
    (free_list : FreeList) (h : RecordPageHeader) → OneMore free_list h (freed_header h free_list)
freed_header-OneMore free_list h = record {
  one_more = refl;
  joined = λ e. let full : h.num_free_slots == 0 ≡ true = ground arith in rw full refl;
  stayed = λ ne. elim (Bool-cases (h.num_free_slots == 0)) [
    | inl full ↦ absurd (ne (ground arith))
    | inr part ↦ rw part refl
  ];
}

pub freed_header_valid :
    (h : RecordPageHeader) (slots : ℕ) (free_list : FreeList)
    → h.num_slots ≡ slots
    → h.num_free_slots < slots
    → IsListed free_list.first_free_page
    → PageHeader.validate h slots ≡ ok tt
    → PageHeader.validate (freed_header h free_list) slots ≡ ok tt
unfolding PageHeader.validate
freed_header_valid h slots free_list count counted listed valid =
    let links = listed.1 in ground arith

pub freed_header-IsStored :
    (h : RecordPageHeader) (slots : ℕ) (free_list : FreeList)
    → h.num_slots ≡ slots
    → h.num_free_slots < slots
    → IsListed free_list.first_free_page
    → IsStored h
    → IsStored (freed_header h free_list)
freed_header-IsStored h slots free_list count counted listed stored = (
  elim (Bool-cases (h.num_free_slots == 0)) [
    | inl full ↦ rw full listed.0
    | inr part ↦ rw part stored.0
  ],
  stored.1,
  omega arith,
)

-- What deleting a record leaves of a page with the header `h`: the slot is empty, the others are as
-- before, and the page is well formed.
pub record Deleted (slots size slot : ℕ) (h : RecordPageHeader) (free_list : FreeList)
    (bytes bytes' : Bytes) : Type 0 where
  pub h' : RecordPageHeader
  pub page : IsPage slots size h' bytes'
  pub header : OneMore free_list h h'
  pub free :
      (rid : Rid) → rid.slot_id ≡ slot → get_slot slots size rid bytes' ≡ err (empty_slot rid)
  pub others :
      (rid : Rid)
      → rid.slot_id ≢ slot
      → get_slot slots size rid bytes' ≡ get_slot slots size rid bytes

module _ (slots size slot : ℕ) (bytes : Bytes) (o : Used slots size bytes slot) where
  abbrev pub at : ℕ
  at = 12 + bitmap_bytes slots + slot * size

  pub fits : at + size ≤ page_data_size
  fits = omega (arith, slots-Fits size slots o.layout, span size slots slot o.inside)

  pub range : record_range slots size slot ≡ ok (at, at + size)
  range = in_page size slots slot o.inside fits

  module _ (blank b1 b2 b3 : Bytes) (h' : RecordPageHeader) (free_list : FreeList)
      (count : h'.num_slots ≡ slots) (valid : PageHeader.validate h' slots ≡ ok tt)
      (stored : IsStored h') (one : OneMore free_list o.h h') (long : length blank ≡ size)
      (w1 : SlotWritten slots slot true o.bitmap bytes b1) (w2 : Written RecordError b1 at blank b2)
      (w3 : HeaderWritten slots h' b2 b3) where
    bitmap3 : slice {E = RecordError} b3 12 (bitmap_end slots) ≡ ok w1.bitmap'
    bitmap3 =
        w3.after 12 (bitmap_end slots) (omega arith)
        ∙ w2.before 12 (bitmap_end slots) (omega arith)
        ∙ w1.read

    others3 :
        (rid : Rid)
        → rid.slot_id ≢ slot
        → (start end : ℕ) → record_range slots size rid.slot_id ≡ ok (start, end)
        → slice {E = RecordError} b3 start end ≡ slice bytes start end
    others3 rid ne start end found =
        let r = record_range-RangeAt slots size slot at (at + size) range in
        let r' = record_range-RangeAt slots size rid.slot_id start end found in
        let low : bitmap_end slots ≤ start = omega (arith, r'.start_at) in
        w3.after start end (omega arith)
        ∙ elim (apart slots size slot rid.slot_id at (at + size) start end r r' ne) [
          | inl below ↦ w2.before start end below
          | inr above ↦ w2.after start end (omega arith)
        ]
        ∙ w1.after start end low

    pub finished : Deleted slots size slot o.h free_list bytes b3
    finished = record {
      h' = h';
      page = record {
        wide = w3.wide ∙ w2.wide ∙ w1.wide ∙ o.wide;
        layout = o.layout;
        header = w3.header;
        count = count;
        valid = valid;
        stored = stored;
        bitmap = w1.bitmap';
        long = w1.long ∙ o.long;
        read = bitmap3;
      };
      header = one;
      free = λ rid e.
          free_by_parts slots size rid b3 w1.bitmap' h' (rw e o.inside) w3.header count bitmap3
            (rw e w1.here);
      others = λ rid ne.
          same_by_parts slots size rid bytes b3 o.bitmap w1.bitmap' o.h h' o.header w3.header
            (o.count ∙ sym count) o.read bitmap3 (w1.others rid.slot_id ne) (others3 rid ne);
    }
