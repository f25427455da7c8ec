-- ===== src/Page/File/Flushed.antt =====
-- `flush_loaded_page` of storage/page.
use rs_redbase.Prelude.{
  ℕ, ◌+◌, ◌<◌, ◌≡◌, ◌≢◌, refl, sym, ◌∙◌, ap, inl, inr, true, false, Option, none, some, length, ok,
  Bool-cases, Option-cases, arith, ltb,
}
use rs_redbase.Prelude.Call.{Runs}
use rs_redbase.Prelude.Bytes.{Bytes, slice, Written}
use rs_redbase.Storage.{IoError}
use rs_redbase.Page.{page_size, file_header_size}
use rs_redbase.Page.Io.{PageIo, IsReliable}
use rs_redbase.Page.File.{PageFile, is_loaded, page_offset, unsaved, flush_page, flush_loaded_page}
use rs_redbase.Page.File.Sound.{
  page_start, page_of, stored, image, IsSound, Kept, is_loaded-cases, image_of_loaded,
  image_of_other,
}

pub page_offset_total :
    (page_id : ℕ) → page_id < 4294967296 → page_offset page_id ≡ ok (page_start page_id)
unfolding page_offset
page_offset_total page_id h = ground arith

-- A page was written to its place in the file.
module _ (c : Bytes) (id : ℕ) (page c' : Bytes) (w : Written IoError c (page_start id) page c')
    (wide : length page ≡ page_size) where
  pub page_of_written : page_of c' id ≡ ok page
  page_of_written =
      ap (λ n. slice {E = IoError} c' (page_start id) (page_start id + n)) (sym wide) ∙ w.here

  pub page_of_others : (j : ℕ) → j ≢ id → page_of c' j ≡ page_of c j
  page_of_others j other = elim (Bool-cases (ltb j id)) [
    | inl lower ↦ w.before (page_start j) (page_start j + page_size) (ground arith)
    | inr higher ↦ w.after (page_start j) (page_start j + page_size) (ground arith)
  ]

-- At most one page is loaded.
pub loaded_unique : (o : Option ℕ) (a b : ℕ) → o ≡ some a → o ≡ some b → a ≡ b
loaded_unique o a b ea eb = cc

not_loaded : (o : Option ℕ) (i j : ℕ) → is_loaded o i ≡ false → o ≡ some j → i ≢ j
not_loaded none i j h e = cc
not_loaded (some k) i j h e =
    λ same. absurd (let same' = loaded_unique (some k) k j refl e in ground arith)

unsaved-some :
    {S : Type 0} (f : PageFile S) (id : ℕ)
    → unsaved f ≡ some id
    → (f.loaded_page_dirty ≡ true) × (f.loaded_page_id ≡ some id)
unfolding unsaved
unsaved-some f id e = elim (Bool-cases f.loaded_page_dirty) [
  | inl dirty ↦ (dirty, cc)
  | inr clean ↦ absurd cc
]

module _ {Io : PageIo} (R : IsReliable Io) where
  pub record Flushed (f f' : PageFile Io.State) : Type 0 where
    pub kept : Kept R f f'
    pub page : f'.loaded_page ≡ f.loaded_page
    pub page_id : f'.loaded_page_id ≡ f.loaded_page_id
    pub saved : unsaved f' ≡ none

  -- There is nothing to write.
  flush_nothing :
      (f : PageFile Io.State)
      → IsSound R f
      → unsaved f ≡ none
      → Runs (flush_loaded_page Io) f (λ _ f'. IsSound R f' × Flushed f f')
  unfolding flush_loaded_page flush_page
  flush_nothing f sound saved = (
    tt,
    f,
    ap (λ o. flush_page Io o f) saved,
    (
      sound,
      record {
        kept = record { header = refl; images = λ i h. refl };
        page = refl;
        page_id = refl;
        saved = saved;
      },
    ),
  )

  flush_page-run :
      (f : PageFile Io.State) (id : ℕ) (io1 : Io.State)
      → page_offset id ≡ ok (page_start id)
      → Io.write_all_at (page_start id) f.loaded_page f.io ≡ (io1, ok tt)
      → flush_page Io (some id) f ≡ (record f { io = io1; loaded_page_dirty = false }, ok tt)
  unfolding flush_page
  flush_page-run f id io1 offset run = rw (offset, run) refl

  -- The file after the loaded page was written, and nothing but its page changed.
  module _ (f : PageFile Io.State) (sound : IsSound R f) (id : ℕ)
      (dirty : f.loaded_page_dirty ≡ true) (loaded : f.loaded_page_id ≡ some id) (io1 : Io.State)
      (w : Written IoError (R.contents f.io) (page_start id) f.loaded_page (R.contents io1)) where
    abbrev after : PageFile Io.State
    after = record f { io = io1; loaded_page_dirty = false }

    stored_after : (i : ℕ) → stored R after i ≡ image R f i
    unfolding stored
    stored_after i = elim (is_loaded-cases f.loaded_page_id i) [
      | inl here ↦
          let same : id ≡ i = loaded_unique f.loaded_page_id id i loaded here in
          ap (λ j. page_of (R.contents io1) j) (sym same)
          ∙ page_of_written (R.contents f.io) id f.loaded_page (R.contents io1) w sound.wide
          ∙ sym (image_of_loaded R f i here)
      | inr other ↦
          page_of_others (R.contents f.io) id f.loaded_page (R.contents io1) w sound.wide i
            (not_loaded f.loaded_page_id i id other loaded)
          ∙ sym (image_of_other R f i other)
    ]

    images_after : (i : ℕ) → image R after i ≡ image R f i
    images_after i = elim (is_loaded-cases f.loaded_page_id i) [
      | inl here ↦ image_of_loaded R after i here ∙ sym (image_of_loaded R f i here)
      | inr other ↦ image_of_other R after i other ∙ stored_after i
    ]

    after-IsSound : IsSound R after
    after-IsSound = record {
      few = sound.few;
      long = omega (arith, sound.long, w.wide);
      wide = sound.wide;
      inside = sound.inside;
      clean = λ i e d. stored_after i ∙ image_of_loaded R f i e;
      synced = λ h.
          let (raw, encoded, front) = sound.synced h in
          (raw, encoded, w.before 0 file_header_size (omega arith) ∙ front);
    }

  pub flush_loaded_page-Flushed :
      (f : PageFile Io.State)
      → IsSound R f
      → Runs (flush_loaded_page Io) f (λ _ f'. IsSound R f' × Flushed f f')
  unfolding flush_loaded_page flush_page unsaved
  flush_loaded_page-Flushed f sound = elim (Option-cases (unsaved f)) [
    | inl saved ↦ flush_nothing f sound saved
    | inr (id, e) ↦
        let (dirty, loaded) = unsaved-some f id e in
        let inside = sound.inside id loaded in
        let few = sound.few in
        let long = sound.long in
        let wide = sound.wide in
        let (io1, run, w) = R.write f.io (page_start id) f.loaded_page (omega arith) in
        (
          tt,
          after f sound id dirty loaded io1 w,
          ap (λ o. flush_page Io o f) e
              ∙ flush_page-run f id io1 (page_offset_total id (omega arith)) run,
          (
            after-IsSound f sound id dirty loaded io1 w,
            record {
              kept = record {
                header = refl;
                images = λ i h. images_after f sound id dirty loaded io1 w i;
              };
              page = refl;
              page_id = refl;
              saved = refl;
            },
          ),
        )
  ]
