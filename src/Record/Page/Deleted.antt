-- ===== src/Record/Page/Deleted.antt =====
-- `free_slot`: the page part of `RecordFile::delete`.
use rs_redbase.Prelude.{
  ℕ, ◌+◌, ◌≡◌, refl, true, false, leb, replicate, length-replicate, arith, ok, Returns,
}
use rs_redbase.Prelude.Bytes.{fill_range-Written, Bytes, fill_range}
use rs_redbase.Record.Types.{Rid, RecordError}
use rs_redbase.Record.Layout.{record_range}
use rs_redbase.Record.Layout.Slots.{slots-Fits}
use rs_redbase.Record.Bitmap.{set_slot_free}
use rs_redbase.Record.PageHeader.{RecordPageHeader, read_page_header}
use rs_redbase.Record.PageHeader
use rs_redbase.Record.Page.{within, bitmap_end, FreeList, ensure_slot_used, free_slot}
use rs_redbase.Record.Page.Writes.{encode-HeaderWritten, set_slot_free-SlotWritten}
use rs_redbase.Record.Page.Deletes.{
  Used, IsListed, freed_header, after_delete, freed_header-OneMore, freed_header_valid,
  freed_header-IsStored, Deleted, at, fits, range, finished,
}

ensure_used :
    (slots size : ℕ) (rid : Rid) (bytes : Bytes) (o : Used slots size bytes rid.slot_id)
    → ensure_slot_used slots rid o.h bytes ≡ ok tt
unfolding ensure_slot_used
ensure_used slots size rid bytes o =
    let valid : leb o.h.num_slots rid.slot_id ≡ false =
      let count = o.count in let inside = o.inside in ground arith in
    rw (valid, o.read, o.taken) refl

-- The counter is far from its overflow.
few :
    (slots size slot : ℕ) (bytes : Bytes) (o : Used slots size bytes slot)
    → leb 4294967295 o.h.num_free_slots ≡ false
few slots size slot bytes o =
    let counted = o.counted in let room = slots-Fits size slots o.layout in ground arith

-- The run, from what its steps return.
free_slot-run :
    (slots size start end : ℕ) (rid : Rid) (bytes b1 b2 b3 : Bytes) (free_list : FreeList)
    (o : Used slots size bytes rid.slot_id)
    → within bytes 12 (bitmap_end slots) (λ b. set_slot_free b rid.slot_id true) ≡ ok b1
    → leb 4294967295 o.h.num_free_slots ≡ false
    → record_range slots size rid.slot_id ≡ ok (start, end)
    → fill_range {E = RecordError} b1 start end 0 ≡ ok b2
    → within b2 0 12 (PageHeader.encode (freed_header o.h free_list)) ≡ ok b3
    → free_slot slots size free_list rid bytes ≡ ok (b3, after_delete o.h free_list rid)
unfolding free_slot
free_slot-run slots size start end rid bytes b1 b2 b3 free_list o run1 small range run2 run3 =
    rw (o.header, ensure_used slots size rid bytes o, run1, small, range, run2, run3) refl

-- On a well-formed page that counts fewer free slots than slots, in a file of which the first free
-- page is the number of a page or the end mark, deleting the record of a used slot never fails: the
-- slot then reads as empty and every other slot of the page reads as before; the page stays well
-- formed, with one free slot more in its header; and a page that was full joins the free list, in
-- front of the page that was the first.
pub free_slot-Deleted :
    (slots size : ℕ) (rid : Rid) (bytes : Bytes) (free_list : FreeList)
    (o : Used slots size bytes rid.slot_id)
    → IsListed free_list.first_free_page
    → Returns (free_slot slots size free_list rid bytes) (λ (bytes', free_list').
      Deleted slots size rid.slot_id o.h free_list bytes bytes'
      × (free_list' ≡ after_delete o.h free_list rid))
free_slot-Deleted slots size rid bytes free_list o listed =
    let slot = rid.slot_id in
    let s = at slots size slot bytes o in
    let room = fits slots size slot bytes o in
    let (b1, run1, w1) =
      set_slot_free-SlotWritten slots slot true o.bitmap bytes o.inside (omega (arith, o.wide))
        o.long o.read in
    let (b2, run2, w2) =
      fill_range-Written {E = RecordError} b1 s (s + size) size 0 refl
        (omega (arith, w1.wide, o.wide)) in
    let (b3, run3, w3) =
      encode-HeaderWritten slots (freed_header o.h free_list) b2
        (omega (arith, w2.wide, w1.wide, o.wide))
        (freed_header-IsStored o.h slots free_list o.count o.counted listed o.stored)
        (freed_header_valid o.h slots free_list o.count o.counted listed o.valid) in
    (
      (b3, after_delete o.h free_list rid),
      free_slot-run slots size s (s + size) rid bytes b1 b2 b3 free_list o run1
          (few slots size slot bytes o) (range slots size slot bytes o) run2 run3,
      (
        finished slots size slot bytes o (replicate size 0) b1 b2 b3 (freed_header o.h free_list)
            free_list o.count
            (freed_header_valid o.h slots free_list o.count o.counted listed o.valid)
            (freed_header-IsStored o.h slots free_list o.count o.counted listed o.stored)
            (freed_header-OneMore free_list o.h) (length-replicate {A = ℕ} size 0) w1 w2 w3,
        refl,
      ),
    )
