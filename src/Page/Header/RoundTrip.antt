-- ===== src/Page/Header/RoundTrip.antt =====
-- `FileHeader::encode` and `decode` of storage/page together.
use rs_redbase.Prelude.{
  ℕ, ◌+◌, ◌<◌, ◌≡◌, refl, ◌∙◌, ap, length, replicate, length-replicate, arith, ok, Returns,
}
use rs_redbase.Prelude.Int.{IsI32}
use rs_redbase.Prelude.Bytes.{
  slice, copy_into-Written, i32_to_le_bytes, u32_to_le_bytes, i32_from_le_bytes-to,
  u32_from_le_bytes-to, length-i32_to_le_bytes, length-u32_to_le_bytes,
}
use rs_redbase.Storage.{PageStoreError}
use rs_redbase.Page.Header.{FileHeader, encode, validate, decode}

-- A valid header whose fields are in range is written as a page, from which it is read back.
pub decode-encode_header :
    (h : FileHeader)
    → IsI32 h.first_free_page
    → h.num_pages < 4294967296
    → validate h ≡ ok tt
    → Returns (encode h) (λ raw. (length raw ≡ 4096) × (decode raw ≡ ok h))
unfolding encode decode
decode-encode_header h range few valid =
    let blank = replicate 4096 0 in
    let wide = length-replicate {A = ℕ} 4096 0 in
    let a = i32_to_le_bytes h.first_free_page in
    let b = u32_to_le_bytes h.num_pages in
    let la = length-i32_to_le_bytes h.first_free_page in
    let lb = length-u32_to_le_bytes h.num_pages in
    let (raw1, run1, w1) = copy_into-Written {E = PageStoreError} blank 0 a (omega arith) in
    let (raw, run, w) = copy_into-Written {E = PageStoreError} raw1 4 b (omega (arith, w1.wide)) in
    let read_a : slice {E = PageStoreError} raw 0 4 ≡ ok a =
      w.before 0 4 (omega arith)
      ∙ ap (λ n. slice raw1 0 n) (let e : 4 ≡ 0 + length a = omega arith in e)
      ∙ w1.here in
    let read_b : slice {E = PageStoreError} raw 4 8 ≡ ok b =
      ap (λ n. slice raw 4 n) (let e : 8 ≡ 4 + length b = omega arith in e) ∙ w.here in
    (
      raw,
      rw run1 run,
      (
        omega (arith, w.wide, w1.wide),
        rw
            (
              read_a,
              i32_from_le_bytes-to {E = PageStoreError} h.first_free_page range,
              read_b,
              u32_from_le_bytes-to {E = PageStoreError} h.num_pages few,
              valid,
            )
            refl,
      ),
    )
