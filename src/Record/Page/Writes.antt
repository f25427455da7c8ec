-- ===== src/Record/Page/Writes.antt =====
-- Writes of the header and the bitmap of a record page of storage/record.
use rs_redbase.Prelude.{
  ℕ, ◌+◌, ◌≤◌, ◌<◌, ◌≡◌, ◌≢◌, refl, sym, ◌∙◌, ap, Bool, length, arith, ok, Returns,
}
use rs_redbase.Prelude.Bytes.{Bytes, slice, slice_total, copy_into-Written}
use rs_redbase.Record.Types.{RecordError}
use rs_redbase.Record.Layout.{bitmap_bytes}
use rs_redbase.Record.Bitmap.{slot_is_free, set_slot_free}
use rs_redbase.Record.Bitmap.Bits.{set_slot_free-reads}
use rs_redbase.Record.PageHeader.{RecordPageHeader, read_page_header}
use rs_redbase.Record.PageHeader
use rs_redbase.Record.PageHeader.RoundTrip.{IsStored, decode-encode_page}
use rs_redbase.Record.Page.{within, bitmap_end}

-- A page after its header was written: the header reads back, and what follows it is as before.
pub record HeaderWritten (slots : ℕ) (h : RecordPageHeader) (bytes bytes' : Bytes) : Type 0 where
  pub wide : length bytes' ≡ length bytes
  pub header : read_page_header slots bytes' ≡ ok h
  pub after : (b e : ℕ) → 12 ≤ b → slice {E = RecordError} bytes' b e ≡ slice bytes b e

pub encode-HeaderWritten :
    (slots : ℕ) (h : RecordPageHeader) (bytes : Bytes)
    → 12 ≤ length bytes
    → IsStored h
    → PageHeader.validate h slots ≡ ok tt
    → Returns (within bytes 0 12 (PageHeader.encode h)) (HeaderWritten slots h bytes)
unfolding read_page_header within
encode-HeaderWritten slots h bytes wide stored valid =
    let (raw, read, long) = slice_total {E = RecordError} bytes 0 12 (omega arith) wide in
    let (raw', encoded, (long', decoded)) = decode-encode_page h raw (omega arith) stored in
    let (bytes', write, w) = copy_into-Written {E = RecordError} bytes 0 raw' (omega arith) in
    let whole : 0 + length raw' ≡ 12 = omega arith in
    let here : slice {E = RecordError} bytes' 0 12 ≡ ok raw' =
      ap (λ e. slice bytes' 0 e) (sym whole) ∙ w.here in
    (
      bytes',
      rw (read, encoded) write,
      record {
        wide = w.wide;
        header = rw (here, decoded, valid) refl;
        after = λ b e le. w.after b e (omega arith);
      },
    )

-- A page after the bit of one slot was written in its bitmap.
pub record SlotWritten (slots slot : ℕ) (value : Bool) (bitmap bytes bytes' : Bytes) : Type 0 where
  pub wide : length bytes' ≡ length bytes
  pub bitmap' : Bytes
  pub long : length bitmap' ≡ length bitmap
  pub read : slice {E = RecordError} bytes' 12 (bitmap_end slots) ≡ ok bitmap'
  pub here : slot_is_free {E = RecordError} bitmap' slot ≡ ok value
  pub others :
      (j : ℕ)
      → j ≢ slot
      → slot_is_free {E = RecordError} bitmap' j ≡ slot_is_free {E = RecordError} bitmap j
  pub before : (b e : ℕ) → e ≤ 12 → slice {E = RecordError} bytes' b e ≡ slice bytes b e
  pub after :
      (b e : ℕ) → bitmap_end slots ≤ b → slice {E = RecordError} bytes' b e ≡ slice bytes b e

pub set_slot_free-SlotWritten :
    (slots slot : ℕ) (value : Bool) (bitmap bytes : Bytes)
    → slot < slots
    → bitmap_end slots ≤ length bytes
    → length bitmap ≡ bitmap_bytes slots
    → slice {E = RecordError} bytes 12 (bitmap_end slots) ≡ ok bitmap
    → Returns
        (within bytes 12 (bitmap_end slots) (λ b. set_slot_free b slot value))
        (SlotWritten slots slot value bitmap bytes)
unfolding within
set_slot_free-SlotWritten slots slot value bitmap bytes inside wide long read =
    let (bitmap', run, (long', here, others)) =
      set_slot_free-reads {E = RecordError} bitmap slot value (omega arith) in
    let (bytes', write, w) = copy_into-Written {E = RecordError} bytes 12 bitmap' (omega arith) in
    let whole : 12 + length bitmap' ≡ bitmap_end slots = omega arith in
    (
      bytes',
      rw (read, run) write,
      record {
        wide = w.wide;
        bitmap' = bitmap';
        long = long';
        read = ap (λ e. slice bytes' 12 e) (sym whole) ∙ w.here;
        here = here;
        others = others;
        before = λ b e le. w.before b e le;
        after = λ b e le. w.after b e (omega arith);
      },
    )
