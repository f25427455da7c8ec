-- ===== src/Page/File/Loaded.antt =====
-- `load_page` of storage/page.
use rs_redbase.Prelude.{
  ℕ, ◌+◌, ◌≤◌, ◌<◌, ◌≡◌, refl, sym, ◌∙◌, ap, inl, inr, false, none, some, leb, le→leb, ==_refl,
  length, ok, err, arith,
}
use rs_redbase.Prelude.Call.{Runs}
use rs_redbase.Prelude.Bytes.{Bytes, slice}
use rs_redbase.Storage.{IoError, invalid_page_id}
use rs_redbase.Page.{page_size, file_header_size}
use rs_redbase.Page.Io.{PageIo, IsReliable}
use rs_redbase.Page.File.{PageFile, unsaved, page_offset, flush_loaded_page, load_other, load_page}
use rs_redbase.Page.File.Sound.{
  page_start, page_of, stored, image, IsSound, Kept, is_loaded-cases, image_of_loaded,
  image_of_other, stored_of_saved,
}
use rs_redbase.Page.File.Flushed.{flush_loaded_page-Flushed, page_offset_total, loaded_unique}

-- The file after a page was read into memory.
abbrev with_page : {S : Type 0} → PageFile S → ℕ → S → Bytes → PageFile S
with_page f id io1 page = record f {
  io = io1;
  loaded_page = page;
  loaded_page_id = some id;
  loaded_page_dirty = false;
}

module _ (Io : PageIo) where
  load_other-run :
      (f f1 : PageFile Io.State) (id : ℕ) (io1 : Io.State) (page : Bytes)
      → flush_loaded_page Io f ≡ (f1, ok tt)
      → page_offset id ≡ ok (page_start id)
      → Io.read_exact_at f1.io (page_start id) f1.loaded_page ≡ ((io1, page), ok tt)
      → load_other Io id f ≡ (with_page f1 id io1 page, ok tt)
  unfolding load_other
  load_other-run f f1 id io1 page flushed offset run = rw (flushed, offset, run) refl

module _ {Io : PageIo} (R : IsReliable Io) where
  pub Kept-trans : {f f1 f2 : PageFile Io.State} → Kept R f f1 → Kept R f1 f2 → Kept R f f2
  Kept-trans k k1 = record {
    header = k1.header ∙ k.header;
    images =
        λ i h. k1.images i (let e = ap (λ h. h.num_pages) k.header in omega arith) ∙ k.images i h;
  }

  pub Kept-refl : (f : PageFile Io.State) → Kept R f f
  Kept-refl f = record { header = refl; images = λ i h. refl }

  pub record Loaded (f : PageFile Io.State) (id : ℕ) (f' : PageFile Io.State) : Type 0 where
    pub kept : Kept R f f'
    pub here : f'.loaded_page_id ≡ some id

  module _ (f : PageFile Io.State) (sound : IsSound R f) (saved : unsaved f ≡ none) (id : ℕ)
      (inside : id < f.header.num_pages) (io1 : Io.State) (page : Bytes)
      (same : R.contents io1 ≡ R.contents f.io) (wide : length page ≡ page_size)
      (read : page_of (R.contents f.io) id ≡ ok page) where
    abbrev after : PageFile Io.State
    after = with_page f id io1 page

    after-stored : (i : ℕ) → stored R after i ≡ stored R f i
    unfolding stored
    after-stored i = ap (λ c. page_of c i) same

    after-here : stored R after id ≡ ok page
    unfolding stored
    after-here = ap (λ c. page_of c id) same ∙ read

    after-images : (i : ℕ) → image R after i ≡ image R f i
    after-images i = elim (is_loaded-cases (some id) i) [
      | inl here ↦
          image_of_loaded R after i here
          ∙ sym after-here
          ∙ ap (stored R after) (loaded_unique (some id) id i refl here)
          ∙ after-stored i
          ∙ stored_of_saved R f sound saved i
      | inr other ↦
          image_of_other R after i other ∙ after-stored i ∙ stored_of_saved R f sound saved i
    ]

    after-IsSound : IsSound R after
    after-IsSound = record {
      few = sound.few;
      long = omega (arith, sound.long, ap length same);
      wide = wide;
      inside = λ i e. let u = loaded_unique (some id) id i refl e in omega arith;
      clean = λ i e d. ap (stored R after) (sym (loaded_unique (some id) id i refl e)) ∙ after-here;
      synced = λ h.
          let (raw, encoded, front) = sound.synced h in
          (raw, encoded, ap (λ c. slice {E = IoError} c 0 file_header_size) same ∙ front);
    }

  load_other-Loaded :
      (f : PageFile Io.State) (id : ℕ)
      → IsSound R f
      → id < f.header.num_pages
      → Runs (load_other Io id) f (λ _ f'. IsSound R f' × Loaded f id f')
  load_other-Loaded f id sound inside =
      let (u, f1, flushed, (sound1, fl)) = flush_loaded_page-Flushed R f sound in
      let pages : f1.header.num_pages ≡ f.header.num_pages = ap (λ h. h.num_pages) fl.kept.header in
      let few = sound1.few in
      let long = sound1.long in
      let wide1 = sound1.wide in
      let (io1, page, run, same, wide, read) =
        R.read f1.io (page_start id) f1.loaded_page (omega arith) in
      let read' : page_of (R.contents f1.io) id ≡ ok page =
        ap (λ n. slice {E = IoError} (R.contents f1.io) (page_start id) (page_start id + n))
          (sym wide1)
        ∙ read in
      let inside1 : id < f1.header.num_pages = omega arith in
      (
        tt,
        with_page f1 id io1 page,
        load_other-run Io f f1 id io1 page flushed (page_offset_total id (omega arith)) run,
        (
          after-IsSound f1 sound1 fl.saved id inside1 io1 page same (wide ∙ wide1) read',
          record {
            kept = Kept-trans fl.kept (record {
              header = refl;
              images = λ i h.
                  after-images f1 sound1 fl.saved id inside1 io1 page same (wide ∙ wide1) read' i;
            });
            here = refl;
          },
        ),
      )

  -- Loading a page that exists succeeds, and keeps the header and the bytes of every page.
  pub load_page-Loaded :
      (f : PageFile Io.State) (id : ℕ)
      → IsSound R f
      → id < f.header.num_pages
      → Runs (load_page Io id) f (λ _ f'. IsSound R f' × Loaded f id f')
  unfolding load_page
  load_page-Loaded f id sound inside =
      let few : leb f.header.num_pages id ≡ false = ground arith in
      elim (is_loaded-cases f.loaded_page_id id) [
        | inl here ↦ (
          tt,
          f,
          rw (few, here, ==_refl id) refl,
          (sound, record { kept = Kept-refl f; here = here }),
        )
        | inr other ↦
            let (u, f', run, post) = load_other-Loaded f id sound inside in
            (tt, f', rw (few, other) run, post)
      ]

  pub load_page_out_of_range :
      (f : PageFile Io.State) (id : ℕ)
      → f.header.num_pages ≤ id
      → load_page Io id f ≡ (f, err (invalid_page_id id))
  unfolding load_page
  load_page_out_of_range f id h = rw (le→leb f.header.num_pages id h) refl
