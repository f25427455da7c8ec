-- ===== src/Record/FileHeader/RoundTrip.antt =====
-- `RecordFileHeader::new`, `encode` and `decode` of storage/record together.
use mathlib.Core.List.{append_assoc}
use rs_redbase.Prelude.{
  ℕ, ◌<◌, ◌%◌, ◌==◌, ==_refl, guard_passed, bind_succeeds, ok_injective, ltb, false, ◌≡◌, refl, sym,
  [], ◌++◌, length, length-append, arith, ok, Returns,
}
use rs_redbase.Prelude.Int.{IsI32}
use rs_redbase.Prelude.Bytes.{
  Bytes, slice, slice_exact, copy_into, u32_to_le_bytes, u32_from_le_bytes-to, i32_to_le_bytes,
  i32_from_le_bytes-to, length-u32_to_le_bytes, length-i32_to_le_bytes,
}
use rs_redbase.Record.Types.{RecordError}
use rs_redbase.Record.FileHeader.{RecordFileHeader, new, encode, decode, validate}
use rs_redbase.Record.Layout.{compute_slots_per_page}
use rs_redbase.Record.Layout.Slots.{slots_small}

abbrev pub IsU32 : ℕ → Type 0
IsU32 n = n < 4294967296

-- The fields are in range.
abbrev pub IsStored : RecordFileHeader → Type 0
IsStored h =
    IsU32 h.record_size × IsU32 h.slots_per_page × IsI32 h.first_free_page × IsU32 h.num_pages

abbrev image : RecordFileHeader → Bytes
image h =
    u32_to_le_bytes h.record_size
    ++ (u32_to_le_bytes h.slots_per_page
        ++ (i32_to_le_bytes h.first_free_page ++ u32_to_le_bytes h.num_pages))

encode-image : (h : RecordFileHeader) → encode h ≡ ok (image h)
unfolding encode copy_into u32_to_le_bytes i32_to_le_bytes
encode-image h = refl

-- Four words, one after another.
module _ (a b c d rest : Bytes) (la : length a ≡ 4) (lb : length b ≡ 4) (lc : length c ≡ 4)
    (ld : length d ≡ 4) where
  slice_first : slice {E = RecordError} (a ++ (b ++ (c ++ (d ++ rest)))) 0 4 ≡ ok a
  slice_first = slice_exact [] a (b ++ (c ++ (d ++ rest))) 0 4 refl (omega arith)

  slice_second : slice {E = RecordError} (a ++ (b ++ (c ++ (d ++ rest)))) 4 8 ≡ ok b
  slice_second = slice_exact a b (c ++ (d ++ rest)) 4 8 (sym la) (omega arith)

  slice_third : slice {E = RecordError} (a ++ (b ++ (c ++ (d ++ rest)))) 8 12 ≡ ok c
  slice_third = rw (← append_assoc a b (c ++ (d ++ rest))) (
      slice_exact (a ++ b) c (d ++ rest) 8 12 (omega (arith, length-append a b))
        (omega (arith, length-append a b)))

  slice_fourth : slice {E = RecordError} (a ++ (b ++ (c ++ (d ++ rest)))) 12 16 ≡ ok d
  slice_fourth =
      rw (← append_assoc b c (d ++ rest), ← append_assoc a (b ++ c) (d ++ rest))
        (slice_exact (a ++ (b ++ c)) d rest 12 16
          (omega (arith, length-append a (b ++ c), length-append b c))
          (omega (arith, length-append a (b ++ c), length-append b c)))

  long_enough : ltb (length (a ++ (b ++ (c ++ (d ++ rest))))) 16 ≡ false
  long_enough =
      let e1 = length-append a (b ++ (c ++ (d ++ rest))) in
      let e2 = length-append b (c ++ (d ++ rest)) in
      let e3 = length-append c (d ++ rest) in let e4 = length-append d rest in ground arith

decode-image :
    (h : RecordFileHeader) (rest : Bytes)
    → IsStored h
    → validate h ≡ ok tt
    → decode (
        u32_to_le_bytes h.record_size
        ++ (u32_to_le_bytes h.slots_per_page
            ++ (i32_to_le_bytes h.first_free_page ++ (u32_to_le_bytes h.num_pages ++ rest))))
      ≡ ok h
unfolding decode
decode-image h rest stored valid =
    let a = u32_to_le_bytes h.record_size in
    let b = u32_to_le_bytes h.slots_per_page in
    let c = i32_to_le_bytes h.first_free_page in
    let d = u32_to_le_bytes h.num_pages in
    let la = length-u32_to_le_bytes h.record_size in
    let lb = length-u32_to_le_bytes h.slots_per_page in
    let lc = length-i32_to_le_bytes h.first_free_page in
    let ld = length-u32_to_le_bytes h.num_pages in
    rw
      (
        long_enough a b c d rest la lb lc ld,
        slice_first a b c d rest la lb lc ld,
        u32_from_le_bytes-to {E = RecordError} h.record_size stored.0,
        slice_second a b c d rest la lb lc ld,
        u32_from_le_bytes-to {E = RecordError} h.slots_per_page stored.1,
        slice_third a b c d rest la lb lc ld,
        i32_from_le_bytes-to {E = RecordError} h.first_free_page stored.2,
        slice_fourth a b c d rest la lb lc ld,
        u32_from_le_bytes-to {E = RecordError} h.num_pages stored.3,
        valid,
      )
      refl

-- A valid header whose fields are in range is written as 16 bytes, and is read back from them and
-- any bytes after them.
pub decode-encode :
    (h : RecordFileHeader) (rest : Bytes)
    → IsStored h
    → validate h ≡ ok tt
    → Returns (encode h) (λ bytes. (length bytes ≡ 16) × (decode (bytes ++ rest) ≡ ok h))
unfolding u32_to_le_bytes i32_to_le_bytes
decode-encode h rest stored valid =
    (image h, encode-image h, (refl, decode-image h rest stored valid))

-- A header made for a record size that fits in a page is valid, has that size, no pages and an
-- empty free list.
pub new-validate :
    (record_size : ℕ) (h : RecordFileHeader)
    → new record_size ≡ ok h
    → (h.record_size ≡ record_size)
      × (compute_slots_per_page record_size ≡ ok h.slots_per_page)
      × (h.num_pages ≡ 0)
      × (validate h ≡ ok tt)
      × IsStored h
unfolding new validate
new-validate record_size h run =
    let (nonzero, run') = guard_passed (record_size == 0) _ _ {y = h} run in
    let (slots, fits, whole) = bind_succeeds (compute_slots_per_page record_size) _ {y = h} run' in
    let (one, small, few) = slots_small record_size slots (ground arith) fits in
    let size : record_size % 4294967296 ≡ record_size = omega arith in
    let count : slots % 4294967296 ≡ slots = omega arith in
    rw (← ok_injective whole, size, count)
      (
        refl,
        fits,
        refl,
        rw (nonzero, fits, ==_refl slots) refl,
        (omega arith, omega arith, omega arith, omega arith),
      )
