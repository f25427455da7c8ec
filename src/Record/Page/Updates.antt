-- ===== src/Record/Page/Updates.antt =====
-- `RecordFile::update` of storage/record on a page.
use rs_redbase.Prelude.{
  ℕ, ◌+◌, ◌-◌, ◌≤◌, ◌<◌, ◌≡◌, ◌≢◌, ◌⊎◌, inl, inr, ◌∙◌, ◌==◌, length, true, ok, arith, bind_succeeds,
  Returns,
}
use rs_redbase.Prelude.Bytes.{Bytes, slice, Written, copy_into-Written}
use rs_redbase.Record.Types.{Rid, RecordError}
use rs_redbase.Record.Layout.{page_data_size, record_range}
use rs_redbase.Record.Layout.Slots.{span}
use rs_redbase.Record.PageHeader.{RecordPageHeader, read_page_header}
use rs_redbase.Record.Page.{bitmap_end, ensure_slot_used, get_slot, update_slot}
use rs_redbase.Record.Page.Reads.{
  SamePlan, read_page_header-same, ensure_slot_used-same, get_slot-same, RangeAt,
  record_range-RangeAt,
}

order-cases : (i j : ℕ) → j ≢ i → (j < i) ⊎ (i < j)
order-cases i j ne = ground arith

-- The ranges of two slots are apart.
pub apart :
    (slots size i j s e s' e' : ℕ)
    → RangeAt slots size i s e
    → RangeAt slots size j s' e'
    → j ≢ i
    → (e' ≤ s) ⊎ (e ≤ s')
apart slots size i j s e s' e' r r' ne =
    let below = λ (lt : j < i). span size i j lt in
    let above = λ (lt : i < j). span size j i lt in
    elim (order-cases i j ne) [
      | inl lt ↦ inl (omega (arith, r.start_at, r'.start_at, r'.end_at, below lt))
      | inr lt ↦ inr (omega (arith, r.start_at, r.end_at, r'.start_at, above lt))
    ]

-- A write into the range of a slot leaves the header and the bitmap.
pub Written-SamePlan :
    (slots size slot start end : ℕ) (payload bytes bytes' : Bytes)
    → RangeAt slots size slot start end
    → Written RecordError bytes start payload bytes'
    → SamePlan slots bytes bytes'
Written-SamePlan slots size slot start end payload bytes bytes' r w = record {
  header = w.before 0 12 (omega (arith, r.start_at));
  bitmap = w.before 12 (bitmap_end slots) (omega (arith, r.start_at));
}

-- What a successful read went through.
record Read (slots size : ℕ) (rid : Rid) (bytes : Bytes) : Type 0 where
  h : RecordPageHeader
  header : read_page_header slots bytes ≡ ok h
  used : ensure_slot_used slots rid h bytes ≡ ok tt
  start : ℕ
  end : ℕ
  range : record_range slots size rid.slot_id ≡ ok (start, end)

get_slot-Read :
    (slots size : ℕ) (rid : Rid) (bytes old : Bytes)
    → get_slot slots size rid bytes ≡ ok old
    → Read slots size rid bytes
unfolding get_slot
get_slot-Read slots size rid bytes old run =
    let (h, header, run1) = bind_succeeds (read_page_header slots bytes) _ {y = old} run in
    let (u, used, run2) = bind_succeeds (ensure_slot_used slots rid h bytes) _ {y = old} run1 in
    let ((start, end), range, run3) =
      bind_succeeds (record_range slots size rid.slot_id) _ {y = old} run2 in
    record { h = h; header = header; used = used; start = start; end = end; range = range }

-- A slot that can be read can be updated with a record of the file's size: it then reads as that
-- record, and every other slot of the page reads as before, an error included.
pub update_slot-get_slot :
    (slots size : ℕ) (rid : Rid) (payload bytes old : Bytes)
    → length bytes ≡ page_data_size
    → length payload ≡ size
    → get_slot slots size rid bytes ≡ ok old
    → Returns (update_slot slots size rid payload bytes) (λ bytes'.
      (length bytes' ≡ page_data_size)
      × (get_slot slots size rid bytes' ≡ ok payload)
      × ((other : Rid)
          → other.slot_id ≢ rid.slot_id
          → get_slot slots size other bytes' ≡ get_slot slots size other bytes))
unfolding update_slot get_slot
update_slot-get_slot slots size rid payload bytes old wide long run =
    let g = get_slot-Read slots size rid bytes old run in
    let r = record_range-RangeAt slots size rid.slot_id g.start g.end g.range in
    let room : g.start + length payload ≤ length bytes = omega (arith, r.end_at, r.fits) in
    let (bytes', write, w) = copy_into-Written {E = RecordError} bytes g.start payload room in
    let same = Written-SamePlan slots size rid.slot_id g.start g.end payload bytes bytes' r w in
    let end_at : g.start + length payload ≡ g.end = omega (arith, r.end_at) in
    let exact : g.end - g.start == length payload ≡ true =
      let e : g.end - g.start ≡ length payload = omega (arith, r.end_at) in ground arith in
    let here : slice {E = RecordError} bytes' g.start g.end ≡ ok payload = rw (← end_at) w.here in
    (
      bytes',
      rw (g.header, g.used, g.range, exact) write,
      (
        w.wide ∙ wide,
        rw
            (
              read_page_header-same slots bytes bytes' same,
              g.header,
              ensure_slot_used-same slots rid g.h bytes bytes' same,
              g.used,
              g.range,
            )
            here,
        λ other ne. get_slot-same slots size other bytes bytes' same (λ start end at.
            elim (apart slots size rid.slot_id other.slot_id g.start g.end start end r
              (record_range-RangeAt slots size other.slot_id start end at) ne) [
                | inl below ↦ w.before start end below
                | inr above ↦ w.after start end (omega arith)
              ]),
      ),
    )
