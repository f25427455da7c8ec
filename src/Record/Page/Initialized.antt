-- ===== src/Record/Page/Initialized.antt =====
-- `initialize_page` on a page of any content.
use rs_redbase.Prelude.{
  ℕ, zero, suc, ◌+◌, ◌/◌, ◌%◌, ◌≤◌, ◌<◌, ◌≡◌, refl, sym, ◌∙◌, ap, true, false, ltb, some, length,
  replicate, length-replicate, get_elem?, arith, ok, err, Returns,
}
use rs_redbase.Prelude.Bytes.{fill_range-Written, Bytes, slice, Written}
use rs_redbase.Record.Types.{Rid, RecordError, empty_slot}
use rs_redbase.Record.Layout.{bitmap_bytes, page_data_size, used_bytes, compute_slots_per_page}
use rs_redbase.Record.Layout.Slots.{slots-Fits, slots_small}
use rs_redbase.Record.Bitmap.{test_bit, slot_is_free}
use rs_redbase.Record.PageHeader.{RecordPageHeader, read_page_header}
use rs_redbase.Record.PageHeader
use rs_redbase.Record.PageHeader.RoundTrip.{IsStored}
use rs_redbase.Record.Page.{bitmap_end, initialize_page, get_slot}
use rs_redbase.Record.Page.Writes.{encode-HeaderWritten}
use rs_redbase.Record.Page.Inserts.{free_by_parts}

full_byte : (k : ℕ) → k < 8 → test_bit 255 k ≡ true
unfolding test_bit
full_byte zero h = refl
full_byte (suc zero) h = refl
full_byte (suc (suc zero)) h = refl
full_byte (suc (suc (suc zero))) h = refl
full_byte (suc (suc (suc (suc zero)))) h = refl
full_byte (suc (suc (suc (suc (suc zero))))) h = refl
full_byte (suc (suc (suc (suc (suc (suc zero)))))) h = refl
full_byte (suc (suc (suc (suc (suc (suc (suc zero))))))) h = refl
full_byte (suc (suc (suc (suc (suc (suc (suc (suc k)))))))) h = absurd (omega arith)

get_elem?-replicate : (n i a : ℕ) → i < n → get_elem? (replicate n a) i ≡ some a
get_elem?-replicate zero i a h = absurd (omega arith)
get_elem?-replicate (suc n) zero a h = refl
get_elem?-replicate (suc n) (suc i) a h = get_elem?-replicate n i a (omega arith)

full_bitmap :
    (slots i : ℕ)
    → i < slots
    → slot_is_free {E = RecordError} (replicate (bitmap_bytes slots) 255) i ≡ ok true
unfolding slot_is_free
full_bitmap slots i h =
    rw (get_elem?-replicate (bitmap_bytes slots) (i / 8) 255 (omega arith))
      (ap ok (full_byte (i % 8) (omega arith)))

new_valid : (slots : ℕ) → slots ≤ 4080 → PageHeader.validate (PageHeader.new slots) slots ≡ ok tt
unfolding PageHeader.validate PageHeader.new
new_valid slots few = let count : slots % 4294967296 ≡ slots = omega arith in ground arith

new-IsStored : (slots : ℕ) → slots ≤ 4080 → IsStored (PageHeader.new slots)
unfolding PageHeader.new
new-IsStored slots few = (omega arith, omega arith, omega arith)

-- What a new page holds.
pub record Initialized (slots size : ℕ) (bytes : Bytes) : Type 0 where
  pub wide : length bytes ≡ page_data_size
  pub header : read_page_header slots bytes ≡ ok (PageHeader.new slots)
  pub empty :
      (rid : Rid) → rid.slot_id < slots → get_slot slots size rid bytes ≡ err (empty_slot rid)

module _ (slots size : ℕ) (b1 b2 : Bytes) (few : slots ≤ 4080) where
  initialized :
      length b1 ≡ page_data_size
      → read_page_header slots b1 ≡ ok (PageHeader.new slots)
      → Written RecordError b1 12 (replicate (bitmap_bytes slots) 255) b2
      → Initialized slots size b2
  unfolding read_page_header PageHeader.new
  initialized wide header w =
      let header2 : read_page_header slots b2 ≡ ok (PageHeader.new slots) =
        rw (w.before 0 12 (omega arith)) header in
      let bitmap : slice {E = RecordError} b2 12 (bitmap_end slots)
          ≡ ok (replicate (bitmap_bytes slots) 255) =
        ap (λ n. slice b2 12 (12 + n)) (sym (length-replicate {A = ℕ} (bitmap_bytes slots) 255))
        ∙ w.here in
      let count : slots % 4294967296 ≡ slots = omega arith in
      record {
        wide = w.wide ∙ wide;
        header = header2;
        empty = λ rid inside.
            free_by_parts slots size rid b2 (replicate (bitmap_bytes slots) 255)
              (PageHeader.new slots) inside header2 count bitmap
              (full_bitmap slots rid.slot_id inside);
      }

-- Initializing a page of any content for records that fit never fails: the page then has the new
-- header, and every slot of it is empty.
pub initialize_page-Initialized :
    (slots size : ℕ) (bytes : Bytes)
    → 0 < size
    → compute_slots_per_page size ≡ ok slots
    → length bytes ≡ page_data_size
    → Returns (initialize_page bytes (PageHeader.new slots) slots size) (Initialized slots size)
unfolding initialize_page
initialize_page-Initialized slots size bytes some_size layout wide =
    let (one, small, few) = slots_small size slots some_size layout in
    let room = slots-Fits size slots layout in
    let (b0, run0, w0) =
      fill_range-Written {E = RecordError} bytes 0 (length bytes) (length bytes) 0 (omega arith)
        (omega arith) in
    let (b1, run1, w1) =
      encode-HeaderWritten slots (PageHeader.new slots) b0 (omega (arith, w0.wide))
        (new-IsStored slots few) (new_valid slots few) in
    let (b2, run2, w2) =
      fill_range-Written {E = RecordError} b1 12 (bitmap_end slots) (bitmap_bytes slots) 255 refl
        (omega (arith, w1.wide, w0.wide)) in
    let fits : ltb page_data_size (used_bytes slots size) ≡ false = ground arith in
    (
      b2,
      rw (run0, run1, run2, fits) refl,
      initialized slots size b1 b2 few (w1.wide ∙ w0.wide ∙ wide) w1.header w2,
    )
