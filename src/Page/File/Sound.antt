-- ===== src/Page/File/Sound.antt =====
-- The pages of a `PageFile` as its callers see them, over a file that does not fail.
use rs_redbase.Prelude.{
  ℕ, ◌+◌, ◌*◌, ◌≤◌, ◌<◌, ◌≡◌, ◌≢◌, refl, sym, ◌∙◌, ap, ◌⊎◌, inl, inr, false, Option, none, some,
  length, if◌then◌else◌, Result, ok, ==_refl, ==_iff, Bool-cases, arith,
}
use rs_redbase.Prelude.Bytes.{Bytes, slice}
use rs_redbase.Storage.{IoError}
use rs_redbase.Page.{page_size, file_header_size}
use rs_redbase.Page.Io.{PageIo, IsReliable}
use rs_redbase.Page.Header
use rs_redbase.Page.File.{PageFile, is_loaded, unsaved}

abbrev pub page_start : ℕ → ℕ
page_start page_id = file_header_size + page_id * page_size

abbrev pub page_of : Bytes → ℕ → Result IoError Bytes
page_of contents page_id = slice contents (page_start page_id) (page_start page_id + page_size)

module _ {Io : PageIo} (R : IsReliable Io) where
  abbrev pub contents : PageFile Io.State → Bytes
  contents f = R.contents f.io

  -- What the file holds for a page that is not loaded.
  unfoldable pub stored : PageFile Io.State → ℕ → Result IoError Bytes
  stored f page_id = page_of (R.contents f.io) page_id

  -- The current bytes of a page: the loaded page's in memory, the others' in the file.
  unfoldable pub image : PageFile Io.State → ℕ → Result IoError Bytes
  image f page_id =
      if is_loaded f.loaded_page_id page_id then ok f.loaded_page else stored f page_id

  pub record IsSound (f : PageFile Io.State) : Type 0 where
    pub few : f.header.num_pages < 4294967296
    pub long : page_start f.header.num_pages ≤ length (contents f)
    pub wide : length f.loaded_page ≡ page_size
    pub inside : (id : ℕ) → f.loaded_page_id ≡ some id → id < f.header.num_pages
    pub clean :
        (id : ℕ)
        → f.loaded_page_id ≡ some id
        → f.loaded_page_dirty ≡ false
        → stored f id ≡ ok f.loaded_page
    pub synced :
        f.header_dirty ≡ false
        → (raw : Bytes) × (Header.encode f.header ≡ ok raw)
          × (slice {E = IoError} (contents f) 0 file_header_size ≡ ok raw)

  -- The header and every page are the same.
  pub record Kept (f f' : PageFile Io.State) : Type 0 where
    pub header : f'.header ≡ f.header
    pub images : (i : ℕ) → i < f.header.num_pages → image f' i ≡ image f i

pub is_loaded-cases : (loaded : Option ℕ) (i : ℕ) → (loaded ≡ some i) ⊎ (is_loaded loaded i ≡ false)
is_loaded-cases none i = inr refl
is_loaded-cases (some j) i = elim (Bool-cases (is_loaded (some j) i)) [
  | inl same ↦ inl (ap some ((==_iff j i).0 same))
  | inr other ↦ inr other
]

pub is_loaded_other :
    (loaded : Option ℕ) (i j : ℕ) → loaded ≡ some j → i ≢ j → is_loaded loaded i ≡ false
is_loaded_other loaded i j e other = rw e (ground arith)

module _ {Io : PageIo} (R : IsReliable Io) (f : PageFile Io.State) where
  pub image_of_loaded : (i : ℕ) → f.loaded_page_id ≡ some i → image R f i ≡ ok f.loaded_page
  unfolding image
  image_of_loaded i e = rw (e, ==_refl i) refl

  pub image_of_other : (i : ℕ) → is_loaded f.loaded_page_id i ≡ false → image R f i ≡ stored R f i
  unfolding image
  image_of_other i e = rw e refl

  -- With nothing unsaved, the file holds every page.
  pub stored_of_saved : IsSound R f → unsaved f ≡ none → (i : ℕ) → stored R f i ≡ image R f i
  unfolding unsaved
  stored_of_saved sound saved i = elim (is_loaded-cases f.loaded_page_id i) [
    | inl e ↦ elim (Bool-cases f.loaded_page_dirty) [
      | inl dirty ↦ absurd (cc)
      | inr clean ↦ sound.clean i e clean ∙ sym (image_of_loaded i e)
    ]
    | inr other ↦ sym (image_of_other i other)
  ]
