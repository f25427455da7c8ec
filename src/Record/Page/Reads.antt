-- ===== src/Record/Page/Reads.antt =====
-- `RecordFile::get` of storage/record on a page: what it depends on.
use rs_redbase.Prelude.{
  ℕ, ◌+◌, ◌*◌, ◌≤◌, ◌<◌, ◌≡◌, refl, sym, ap, Result, ok, err, panicked, ◌>>=◌, arith, guard_passed,
  ok_injective, leb, ltb,
}
use rs_redbase.Prelude.Bytes.{Bytes, slice}
use rs_redbase.Record.Types.{Rid, RecordError}
use rs_redbase.Record.Layout.{page_data_size, record_range}
use rs_redbase.Record.PageHeader.{RecordPageHeader, read_page_header}
use rs_redbase.Record.Page.{bitmap_end, ensure_slot_used, get_slot}

pub bind_same {ℓ κ} :
    {X : Type ℓ} {Y : Type κ} (m : Result RecordError X) (f g : X → Result RecordError Y)
    → ((x : X) → m ≡ ok x → f x ≡ g x)
    → (m >>= f) ≡ (m >>= g)
bind_same (ok x) f g h = h x refl
bind_same (err e) f g h = refl
bind_same panicked f g h = refl

-- The header and the bitmap read the same.
pub record SamePlan (slots : ℕ) (bytes bytes' : Bytes) : Type 0 where
  pub header : slice {E = RecordError} bytes' 0 12 ≡ slice bytes 0 12
  pub bitmap :
      slice {E = RecordError} bytes' 12 (bitmap_end slots) ≡ slice bytes 12 (bitmap_end slots)

pub read_page_header-same :
    (slots : ℕ) (bytes bytes' : Bytes)
    → SamePlan slots bytes bytes'
    → read_page_header slots bytes' ≡ read_page_header slots bytes
unfolding read_page_header
read_page_header-same slots bytes bytes' same = rw same.header refl

pub ensure_slot_used-same :
    (slots : ℕ) (rid : Rid) (h : RecordPageHeader) (bytes bytes' : Bytes)
    → SamePlan slots bytes bytes'
    → ensure_slot_used slots rid h bytes' ≡ ensure_slot_used slots rid h bytes
unfolding ensure_slot_used
ensure_slot_used-same slots rid h bytes bytes' same = rw same.bitmap refl

-- With the same header and bitmap, a slot whose range reads the same is read the same.
pub get_slot-same :
    (slots size : ℕ) (rid : Rid) (bytes bytes' : Bytes)
    → SamePlan slots bytes bytes'
    → ((start end : ℕ)
        → record_range slots size rid.slot_id ≡ ok (start, end)
        → slice {E = RecordError} bytes' start end ≡ slice bytes start end)
    → get_slot slots size rid bytes' ≡ get_slot slots size rid bytes
unfolding get_slot
get_slot-same slots size rid bytes bytes' same ranges =
    rw (read_page_header-same slots bytes bytes' same) (
      bind_same (read_page_header slots bytes) _ _ (λ h _.
        rw (ensure_slot_used-same slots rid h bytes bytes' same) (
          bind_same (ensure_slot_used slots rid h bytes) _ _ (λ u _.
            bind_same (record_range slots size rid.slot_id) _ _
              (λ (start, end) at. ranges start end at)))))

-- Where a range is.
pub record RangeAt (slots size slot start end : ℕ) : Type 0 where
  pub inside : slot < slots
  pub start_at : start ≡ bitmap_end slots + slot * size
  pub end_at : end ≡ start + size
  pub fits : end ≤ page_data_size

pub record_range-RangeAt :
    (slots size slot start end : ℕ)
    → record_range slots size slot ≡ ok (start, end)
    → RangeAt slots size slot start end
unfolding record_range
record_range-RangeAt slots size slot start end h =
    let (inside, h1) = guard_passed (leb slots slot) _ _ {y = (start, end)} h in
    let (fits, whole) =
      guard_passed (ltb page_data_size (bitmap_end slots + slot * size + size)) _ _
        {y = (start, end)} h1 in
    let e = ok_injective whole in
    let e1 : bitmap_end slots + slot * size ≡ start = ap (λ p. p.0) e in
    let e2 : bitmap_end slots + slot * size + size ≡ end = ap (λ p. p.1) e in
    record { inside = ground arith; start_at = sym e1; end_at = omega arith; fits = ground arith }
