-- ===== src/Page/File/Edited.antt =====
-- Writes of the loaded page of a `PageFile`: its header and its data.
use rs_redbase.Prelude.{
  ℕ, ◌+◌, ◌≤◌, ◌≡◌, ◌≢◌, refl, sym, ◌∙◌, ap, inl, inr, Bool, true, false, some, length, replicate,
  length-replicate, ok, Returns, arith,
}
use rs_redbase.Prelude.Int.{ℤ, IsI32}
use rs_redbase.Prelude.Bytes.{
  Bytes, slice, copy_into, fill_range, fill_range-Written, copy_into-Written, i32_from_le_bytes-to,
  i32_to_le_bytes, length-i32_to_le_bytes, i32_from_le_bytes_total, slice_total,
}
use rs_redbase.Storage.{PageStoreError}
use rs_redbase.Page.{page_size}
use rs_redbase.Page.Io.{PageIo, IsReliable}
use rs_redbase.Page.Header.{PageHeader, FileHeader, used, of_page, encode_page, decode_page}
use rs_redbase.Page.Header
use rs_redbase.Page.File.{PageFile}
use rs_redbase.Page.File.Sound.{
  stored, image, IsSound, is_loaded-cases, image_of_loaded, image_of_other,
}
use rs_redbase.Page.File.Flushed.{loaded_unique}

-- A page after its header was written.
pub record HeaderSet (header : PageHeader) (page page' : Bytes) : Type 0 where
  pub wide : length page' ≡ length page
  pub header_set : of_page page' ≡ ok header
  pub content : (e : ℕ) → slice {E = PageStoreError} page' 4 e ≡ slice page 4 e

pub encode_page-HeaderSet :
    (page : Bytes) (header : PageHeader)
    → 4 ≤ length page
    → IsI32 header.next_free
    → Returns (copy_into {E = PageStoreError} page 0 (encode_page header)) (HeaderSet header page)
unfolding of_page encode_page decode_page
encode_page-HeaderSet page header long range =
    let raw = i32_to_le_bytes header.next_free in
    let four : length raw ≡ 4 = length-i32_to_le_bytes header.next_free in
    let (page', run, w) = copy_into-Written {E = PageStoreError} page 0 raw (omega arith) in
    let here : slice {E = PageStoreError} page' 0 4 ≡ ok raw =
      ap (λ n. slice page' 0 n) (let e : 4 ≡ 0 + length raw = omega arith in e) ∙ w.here in
    (
      page',
      run,
      record {
        wide = w.wide;
        header_set =
            rw (here, i32_from_le_bytes-to {E = PageStoreError} header.next_free range) refl;
        content = λ e. w.after 4 e (omega arith);
      },
    )

pub used_range : IsI32 used.next_free
unfolding used
used_range = omega arith

-- A page after its data was written.
pub record DataSet (bytes page page' : Bytes) : Type 0 where
  pub wide : length page' ≡ length page
  pub header : of_page page' ≡ of_page page
  pub data_set : slice {E = PageStoreError} page' 4 page_size ≡ ok bytes

pub copy_into-DataSet :
    (page bytes : Bytes)
    → length page ≡ page_size
    → length bytes ≡ 4092
    → Returns (copy_into {E = PageStoreError} page 4 bytes) (DataSet bytes page)
unfolding of_page
copy_into-DataSet page bytes wide long =
    let (page', run, w) = copy_into-Written {E = PageStoreError} page 4 bytes (omega arith) in
    (
      page',
      run,
      record {
        wide = w.wide;
        header = rw (w.before 0 4 (omega arith)) refl;
        data_set = ap (λ n. slice {E = PageStoreError} page' 4 (4 + n)) (sym long) ∙ w.here;
      },
    )

pub fill_range-DataSet :
    (page : Bytes)
    → length page ≡ page_size
    → Returns
        (fill_range {E = PageStoreError} page 4 (length page) 0)
        (DataSet (replicate 4092 0) page)
unfolding of_page
fill_range-DataSet page wide =
    let (page', run, w) =
      fill_range-Written {E = PageStoreError} page 4 (length page) 4092 0 (omega arith)
        (omega arith) in
    (
      page',
      run,
      record {
        wide = w.wide;
        header = rw (w.before 0 4 (omega arith)) refl;
        data_set =
            ap (λ n. slice {E = PageStoreError} page' 4 (4 + n))
              (sym (length-replicate {A = ℕ} 4092 0))
            ∙ w.here;
      },
    )

-- Every page of full size has a header and data.
pub of_page_total :
    (page : Bytes) → length page ≡ page_size → Returns (of_page page) (λ _. Unit {0})
unfolding of_page decode_page
of_page_total page wide =
    let (raw, read, four) = slice_total {E = PageStoreError} page 0 4 (omega arith) (omega arith) in
    let (z, decoded) = i32_from_le_bytes_total {E = PageStoreError} raw (omega arith) in
    (record { next_free = z }, rw (read, decoded) refl, tt)

-- The file after the loaded page was replaced, and perhaps the free list's head.
abbrev pub edited : {S : Type 0} → PageFile S → Bytes → ℤ → Bool → PageFile S
edited f page first dirty = record f {
  loaded_page = page;
  loaded_page_dirty = true;
  header = record f.header { first_free_page = first };
  header_dirty = dirty;
}

module _ {Io : PageIo} (R : IsReliable Io) (f : PageFile Io.State) (id : ℕ)
    (loaded : f.loaded_page_id ≡ some id) (page : Bytes) (first : ℤ) (dirty : Bool) where
  pub edited-here : image R (edited f page first dirty) id ≡ ok page
  edited-here = image_of_loaded R (edited f page first dirty) id loaded

  pub edited-others : (j : ℕ) → j ≢ id → image R (edited f page first dirty) j ≡ image R f j
  unfolding stored
  edited-others j other = elim (is_loaded-cases f.loaded_page_id j) [
    | inl here ↦ absurd (other (loaded_unique f.loaded_page_id j id here loaded))
    | inr absent ↦
        image_of_other R (edited f page first dirty) j absent ∙ sym (image_of_other R f j absent)
  ]

  pub edited-IsSound :
      IsSound R f
      → length page ≡ page_size
      → (dirty ≡ false → (first ≡ f.header.first_free_page) × (f.header_dirty ≡ false))
      → IsSound R (edited f page first dirty)
  edited-IsSound sound wide same = record {
    few = sound.few;
    long = sound.long;
    wide = wide;
    inside = sound.inside;
    clean = λ i e h. cc;
    synced = λ h.
        let (unmoved, clean) = same h in
        let (raw, encoded, front) = sound.synced clean in
        (
          raw,
          ap (λ z. Header.encode (record f.header { first_free_page = z })) unmoved ∙ encoded,
          front,
        );
  }
