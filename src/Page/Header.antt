-- ===== src/Page/Header.antt =====
-- `FileHeader` and `PageHeader` of storage/page.
pub mod RoundTrip
use rs_redbase.Prelude.{
  ℕ, Bool, not, ◌&&◌, leb, replicate, if◌then◌else◌, Result, ok, err, ◌>>=◌, ◌>>◌,
}
use rs_redbase.Prelude.Int.{ℤ, to_u32, eqb_ℤ, ltb_ℤ}
use rs_redbase.Prelude.Bytes.{
  Bytes, slice, copy_into, i32_to_le_bytes, u32_to_le_bytes, i32_from_le_bytes, u32_from_le_bytes,
}
use rs_redbase.Storage.{PageStoreError}
use rs_redbase.Page.{free_list_end, page_used, file_header_size, page_header_size}

pub record FileHeader : Type 0 where
  pub first_free_page : ℤ
  pub num_pages : ℕ

unfoldable pub new : FileHeader
new = record { first_free_page = free_list_end; num_pages = 0 }

unfoldable pub encode : FileHeader → Result PageStoreError Bytes
encode header = do
  buf ← copy_into (replicate file_header_size 0) 0 (i32_to_le_bytes header.first_free_page)
  copy_into buf 4 (u32_to_le_bytes header.num_pages)

unfoldable pub validate : FileHeader → Result PageStoreError (Unit {0})
validate header =
    if ltb_ℤ header.first_free_page free_list_end
    then err (PageStoreError.corrupted "first_free_page is smaller than the free-list sentinel")
    else if not (eqb_ℤ header.first_free_page free_list_end)
        && leb header.num_pages (to_u32 header.first_free_page)
    then err (PageStoreError.corrupted "first_free_page points outside the current file")
    else ok tt

unfoldable pub decode : Bytes → Result PageStoreError FileHeader
decode buf = do
  raw_free ← slice buf 0 4
  first_free_page ← i32_from_le_bytes raw_free
  raw_pages ← slice buf 4 8
  num_pages ← u32_from_le_bytes raw_pages
  let header : FileHeader = record { first_free_page = first_free_page; num_pages = num_pages }
  validate header >> ok header

-- `PageHeader`: the next free page, or the mark of a used page.
pub record PageHeader : Type 0 where
  pub next_free : ℤ

unfoldable pub used : PageHeader
used = record { next_free = page_used }

unfoldable pub encode_page : PageHeader → Bytes
encode_page header = i32_to_le_bytes header.next_free

unfoldable pub decode_page : Bytes → Result PageStoreError PageHeader
decode_page buf = do next_free ← i32_from_le_bytes buf; ok (record { next_free = next_free })

-- The header in the first bytes of a page.
unfoldable pub of_page : Bytes → Result PageStoreError PageHeader
of_page page = do raw ← slice page 0 page_header_size; decode_page raw
