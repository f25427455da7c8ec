-- ===== src/Page/File.antt =====
-- `PageFile` of storage/page: pages of a file, one of them loaded. The functions that hand out a
-- guard return the page's data, and what the holder of a write guard does is `put_page_data`.
pub mod Open
pub mod Sound
pub mod Flushed
pub mod Loaded
pub mod Edited
pub mod Store
pub mod Represented
pub mod Reads
pub mod Writes
pub mod Disposed
pub mod Reused
pub mod Allocated
pub mod Saved
pub mod Reopened
use rs_redbase.Prelude.{
  ℕ, ◌+◌, ◌*◌, Bool, true, false, not, Option, none, some, ltb, leb, ◌==◌, length, replicate,
  if◌then◌else◌, Result, ok, err, map_err, ok_or,
}
use rs_redbase.Prelude.Call.{Call, ◌>>=◌, ◌>>◌, pure, reads, gets, modify, fail_if}
use rs_redbase.Prelude.Int.{ℤ, pos, of_u32, to_u32, eqb_ℤ}
use rs_redbase.Prelude.Bytes.{Bytes, slice, copy_into, fill_range}
use rs_redbase.Storage.{
  IoError, PageStoreError, invalid_page_id, page_already_free, checked_add, checked_mul,
  checked_add_u32,
}
use rs_redbase.Page.{page_header_size, page_size, file_header_size, free_list_end, page_used}
use rs_redbase.Page.Io.{PageIo}
use rs_redbase.Page.Header.{FileHeader, PageHeader}
use rs_redbase.Page.Header

-- A file over an `I: PageIo`, with the state of `I`.
pub record PageFile (S : Type 0) : Type 0 where
  pub io : S
  pub header : FileHeader
  pub header_dirty : Bool
  pub loaded_page_id : Option ℕ
  pub loaded_page_dirty : Bool
  pub loaded_page : Bytes

unfoldable pub page_offset : ℕ → Result PageStoreError ℕ
page_offset page_id = elim (checked_mul page_id page_size) [
  | none ↦ err (PageStoreError.corrupted "page offset overflow")
  | some logical_offset ↦
      ok_or (checked_add file_header_size logical_offset)
        (PageStoreError.corrupted "page offset overflow")
]

abbrev pub is_loaded : Option ℕ → ℕ → Bool
is_loaded none page_id = false
is_loaded (some loaded) page_id = loaded == page_id

abbrev pub FileCall : Type 0 → Type 0 → Type 0
FileCall S A = Call (PageFile S) PageStoreError A

module _ {S : Type 0} where
  -- A call on `self.io`, with `?` on its error.
  abbrev pub on_io : {A : Type 0} → Call S IoError A → FileCall S A
  on_io call f = let (io, r) = call f.io in (record f { io = io }, map_err PageStoreError.io r)

  unfoldable pub current_page_header : PageFile S → Result PageStoreError PageHeader
  current_page_header f = Header.of_page f.loaded_page

  abbrev pub put_page : Result PageStoreError Bytes → FileCall S (Unit {0})
  put_page (ok page) f = (record f { loaded_page = page }, ok tt)
  put_page (err e) f = (f, err e)
  put_page Result.panicked f = (f, Result.panicked)

  unfoldable pub write_current_page_header : PageHeader → FileCall S (Unit {0})
  write_current_page_header header f =
      put_page (copy_into f.loaded_page 0 (Header.encode_page header)) f

  -- `page_data_mut().fill(0)`.
  unfoldable pub clear_page_data : FileCall S (Unit {0})
  clear_page_data f =
      put_page (fill_range f.loaded_page page_header_size (length f.loaded_page) 0) f

  unfoldable pub page_data : PageFile S → Result PageStoreError Bytes
  page_data f = slice f.loaded_page page_header_size (length f.loaded_page)

  -- What the holder of a write guard leaves in the page's data.
  unfoldable pub put_page_data : Bytes → FileCall S (Unit {0})
  put_page_data bytes f = put_page (copy_into f.loaded_page page_header_size bytes) f

  -- The loaded page, if there is one and it is dirty.
  unfoldable pub unsaved : PageFile S → Option ℕ
  unsaved f = if f.loaded_page_dirty then f.loaded_page_id else none

module _ (Io : PageIo) where
  abbrev write_header : FileCall Io.State (Unit {0})
  write_header = do
    bytes ← reads (λ f. Header.encode f.header)
    on_io (Io.write_all_at 0 bytes)
    modify (λ f. record f { header_dirty = false })

  unfoldable pub flush_header : FileCall Io.State (Unit {0})
  flush_header = do dirty ← gets (λ f. f.header_dirty); if dirty then write_header else pure tt

  -- With the two early returns of `flush_loaded_page` taken.
  unfoldable pub flush_page : Option ℕ → FileCall Io.State (Unit {0})
  flush_page none = pure tt
  flush_page (some page_id) = do
    offset ← reads (λ _. page_offset page_id)
    page ← gets (λ f. f.loaded_page)
    on_io (Io.write_all_at offset page)
    modify (λ f. record f { loaded_page_dirty = false })

  unfoldable pub flush_loaded_page : FileCall Io.State (Unit {0})
  flush_loaded_page = do page_id ← gets unsaved; flush_page page_id

  unfoldable pub flush : FileCall Io.State (Unit {0})
  flush = flush_loaded_page >> flush_header >> on_io Io.sync_all

  -- `Drop`: a flush whose result is ignored.
  unfoldable pub drop_file : PageFile Io.State → PageFile Io.State
  drop_file f = (flush f).0

  -- `io.read_exact_at(offset, &mut loaded_page)`.
  abbrev pub read_loaded : ℕ → FileCall Io.State (Unit {0})
  read_loaded offset f =
      let ((io, page), r) = Io.read_exact_at f.io offset f.loaded_page in
      (record f { io = io; loaded_page = page }, map_err PageStoreError.io r)

  -- With the checks of `load_page` passed.
  unfoldable pub load_other : ℕ → FileCall Io.State (Unit {0})
  load_other page_id = do
    flush_loaded_page
    offset ← reads (λ _. page_offset page_id)
    read_loaded offset
    modify (λ f. record f { loaded_page_id = some page_id; loaded_page_dirty = false })

  unfoldable pub load_page : ℕ → FileCall Io.State (Unit {0})
  load_page page_id f =
      if leb f.header.num_pages page_id
      then (f, err (invalid_page_id page_id))
      else if is_loaded f.loaded_page_id page_id
      then (f, ok tt)
      else load_other page_id f

  unfoldable pub ensure_current_page_is_used : ℕ → FileCall Io.State (Unit {0})
  ensure_current_page_is_used page_id = do
    header ← reads current_page_header
    fail_if (not (eqb_ℤ header.next_free page_used)) (invalid_page_id page_id)

  unfoldable pub read_page : ℕ → FileCall Io.State Bytes
  read_page page_id = do load_page page_id; ensure_current_page_is_used page_id; reads page_data

  unfoldable pub write_page : ℕ → FileCall Io.State Bytes
  write_page page_id = do
    load_page page_id
    ensure_current_page_is_used page_id
    modify (λ f. record f { loaded_page_dirty = true })
    reads page_data

  -- From the head of the free list.
  unfoldable pub reuse_page : FileCall Io.State ℕ
  reuse_page = do
    page_id ← gets (λ f. to_u32 f.header.first_free_page)
    load_page page_id
    next ← reads current_page_header
    modify (λ f. record f { header = record f.header { first_free_page = next.next_free } })
    write_current_page_header Header.used
    clear_page_data
    pure page_id

  -- At the end of the file.
  unfoldable pub extend_file : FileCall Io.State ℕ
  extend_file = do
    page_id ← gets (λ f. f.header.num_pages)
    flush_loaded_page
    num_pages ← reads (λ f.
        ok_or (checked_add_u32 f.header.num_pages 1)
          (PageStoreError.corrupted "page count overflow"))
    modify (λ f. record f { header = record f.header { num_pages = num_pages } })
    on_io (Io.set_len (file_header_size + num_pages * page_size))
    modify (λ f. record f {
      loaded_page = replicate page_size 0;
      loaded_page_id = some page_id;
      loaded_page_dirty = true;
    })
    write_current_page_header Header.used
    pure page_id

  -- Whether a free page is used, or a new one.
  abbrev pub take_page : Bool → FileCall Io.State ℕ
  take_page true = reuse_page
  take_page false = extend_file

  unfoldable pub allocate_page : FileCall Io.State ℕ
  allocate_page = do
    reuse ← gets (λ f. not (eqb_ℤ f.header.first_free_page free_list_end))
    page_id ← take_page reuse
    modify (λ f. record f { header_dirty = true; loaded_page_dirty = true })
    pure page_id

  unfoldable pub dispose_page : ℕ → FileCall Io.State (Unit {0})
  dispose_page page_id = do
    load_page page_id
    header ← reads current_page_header
    fail_if (not (eqb_ℤ header.next_free page_used)) (page_already_free page_id)
    clear_page_data
    first_free_page ← gets (λ f. f.header.first_free_page)
    write_current_page_header (record { next_free = first_free_page })
    modify (λ f. record f {
      header = record f.header { first_free_page = of_u32 page_id };
      header_dirty = true;
      loaded_page_dirty = true;
    })
