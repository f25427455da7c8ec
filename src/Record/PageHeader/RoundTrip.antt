-- ===== src/Record/PageHeader/RoundTrip.antt =====
-- `RecordPageHeader::encode` and `decode` of storage/record together.
use rs_redbase.Prelude.{ℕ, ◌+◌, ◌≤◌, ◌<◌, ◌≡◌, refl, ◌∙◌, length, ltb, false, arith, ok, Returns}
use rs_redbase.Prelude.Int.{IsI32}
use rs_redbase.Prelude.Bytes.{
  Bytes, slice, copy_into, Written, copy_into-Written, u32_to_le_bytes, u32_from_le_bytes-to,
  i32_to_le_bytes, i32_from_le_bytes-to, length-u32_to_le_bytes, length-i32_to_le_bytes,
}
use rs_redbase.Record.Types.{RecordError}
use rs_redbase.Record.PageHeader.{RecordPageHeader, encode, decode}

-- The fields are in range.
abbrev pub IsStored : RecordPageHeader → Type 0
IsStored h = IsI32 h.next_free_page × (h.num_slots < 4294967296) × (h.num_free_slots < 4294967296)

-- Four bytes written at a place read back.
abbrev PutFour : Bytes → ℕ → Bytes → Bytes → Type 0
PutFour raw at word raw' = (length raw' ≡ 12) × Written RecordError raw at word raw'

put_four :
    (raw : Bytes) (at : ℕ) (word : Bytes)
    → length raw ≡ 12
    → length word ≡ 4
    → at + 4 ≤ 12
    → Returns (copy_into {E = RecordError} raw at word) (PutFour raw at word)
put_four raw at word wide four fits =
    let (raw', run, w) = copy_into-Written {E = RecordError} raw at word (omega arith) in
    (raw', run, (w.wide ∙ wide, w))

-- A header whose fields are in range is written into twelve bytes, and is read back from them.
pub decode-encode_page :
    (h : RecordPageHeader) (raw : Bytes)
    → length raw ≡ 12
    → IsStored h
    → Returns (encode h raw) (λ raw'. (length raw' ≡ 12) × (decode raw' ≡ ok h))
unfolding encode decode
decode-encode_page h raw wide stored =
    let a = i32_to_le_bytes h.next_free_page in
    let b = u32_to_le_bytes h.num_slots in
    let c = u32_to_le_bytes h.num_free_slots in
    let la = length-i32_to_le_bytes h.next_free_page in
    let lb = length-u32_to_le_bytes h.num_slots in
    let lc = length-u32_to_le_bytes h.num_free_slots in
    let (r1, run1, (wide1, w1)) = put_four raw 0 a wide la (omega arith) in
    let (r2, run2, (wide2, w2)) = put_four r1 4 b wide1 lb (omega arith) in
    let (r3, run3, (wide3, w3)) = put_four r2 8 c wide2 lc (omega arith) in
    let ea : 0 + length a ≡ 4 = omega arith in
    let eb : 4 + length b ≡ 8 = omega arith in
    let ec : 8 + length c ≡ 12 = omega arith in
    let here1 : slice {E = RecordError} r1 0 4 ≡ ok a = rw (← ea) w1.here in
    let here2 : slice {E = RecordError} r2 4 8 ≡ ok b = rw (← eb) w2.here in
    let here3 : slice {E = RecordError} r3 8 12 ≡ ok c = rw (← ec) w3.here in
    let s1 = w3.before 0 4 (omega arith) ∙ w2.before 0 4 (omega arith) ∙ here1 in
    let s2 = w3.before 4 8 (omega arith) ∙ here2 in
    let long : ltb (length r3) 12 ≡ false = ground arith in
    (
      r3,
      rw (run1, run2) run3,
      (
        wide3,
        rw
            (
              long,
              s1,
              i32_from_le_bytes-to {E = RecordError} h.next_free_page stored.0,
              s2,
              u32_from_le_bytes-to {E = RecordError} h.num_slots stored.1,
              here3,
              u32_from_le_bytes-to {E = RecordError} h.num_free_slots stored.2,
            )
            refl,
      ),
    )
