-- ===== src/Page/File/Allocated.antt =====
-- `allocate_page` of storage/page: a free page, or a new one at the end of the file.
use rs_redbase.Prelude.{
  ℕ, suc, ◌+◌, ◌≤◌, ◌<◌, ◌≡◌, ◌≢◌, refl, sym, ◌∙◌, ap, inl, inr, true, false, none, some, List, [],
  ◌∷◌, not, length, replicate, length-replicate, replicate_split, ok, expect, arith,
}
use rs_redbase.Prelude.Int.{eqb_ℤ}
use rs_redbase.Prelude.Call.{Runs}
use rs_redbase.Prelude.Bytes.{Bytes, slice, slice_exact, copy_into}
use rs_redbase.Storage.{IoError, PageStoreError, checked_add_u32}
use rs_redbase.Page.{page_size, free_list_end}
use rs_redbase.Page.Io.{PageIo, IsReliable}
use rs_redbase.Page.Header.{of_page, used, encode_page}
use rs_redbase.Page.File.{
  PageFile, unsaved, flush_loaded_page, write_current_page_header, extend_file, allocate_page,
}
use rs_redbase.Page.File.Sound.{
  page_start, stored, image, IsSound, is_loaded-cases, image_of_loaded, image_of_other,
  stored_of_saved,
}
use rs_redbase.Page.File.Flushed.{flush_loaded_page-Flushed, loaded_unique}
use rs_redbase.Page.File.Edited.{used_range, encode_page-HeaderSet}
use rs_redbase.Page.File.Store.{Store, zeros, put, allocated, allocate, Holds, Chain, Represents}
use rs_redbase.Page.File.Represented.{Represents_as, Represents_kept, holds_put, put_free}
use rs_redbase.Page.File.Reused.{finish, allocate_page-chosen, allocate_page-reused}

-- The file after a new page was added.
abbrev extended : {S : Type 0} → PageFile S → S → ℕ → Bytes → PageFile S
extended f io n page = record f {
  io = io;
  header = record f.header { num_pages = n };
  header_dirty = true;
  loaded_page_id = some f.header.num_pages;
  loaded_page_dirty = true;
  loaded_page = page;
}

finish-extends :
    (Io : PageIo) (f f1 : PageFile Io.State) (io2 : Io.State) (n : ℕ) (page : Bytes)
    → flush_loaded_page Io f ≡ (f1, ok tt)
    → f1.header.num_pages ≡ f.header.num_pages
    → checked_add_u32 f1.header.num_pages 1 ≡ some n
    → Io.set_len (page_start n) f1.io ≡ (io2, ok tt)
    → copy_into {E = PageStoreError} (replicate page_size 0) 0 (encode_page used) ≡ ok page
    → finish Io false f ≡ (extended f1 io2 n page, ok f.header.num_pages)
unfolding extend_file write_current_page_header
finish-extends Io f f1 io2 n page flushed same more resized written =
    rw (flushed, ← same, more, resized, written) refl

one_more : (n : ℕ) → suc n < 4294967296 → checked_add_u32 n 1 ≡ some (suc n)
one_more n h = ground arith

-- A page of zeros.
data_of_zeros : slice {E = PageStoreError} (replicate page_size 0) 4 page_size ≡ ok zeros
data_of_zeros =
    ap (λ page. slice page 4 page_size) (replicate_split 4 4092 page_size 0 refl)
    ∙ slice_exact (replicate 4 0) (replicate 4092 0) [] 4 page_size
        (sym (length-replicate {A = ℕ} 4 0))
        (omega (arith, length-replicate {A = ℕ} 4 0, length-replicate {A = ℕ} 4092 0))

module _ {Io : PageIo} (R : IsReliable Io) where
  module _ (f : PageFile Io.State) (sound : IsSound R f) (saved : unsaved f ≡ none) (io2 : Io.State)
      (n : ℕ) (page : Bytes) (next : n ≡ suc f.header.num_pages) (few : n < 4294967296)
      (wide : length page ≡ page_size) (long : length (R.contents io2) ≡ page_start n)
      (before : (b e : ℕ)
        → e ≤ length (R.contents f.io)
        → e ≤ page_start n
        → slice {E = IoError} (R.contents io2) b e ≡ slice (R.contents f.io) b e) where
    extended-IsSound : IsSound R (extended f io2 n page)
    extended-IsSound = record {
      few = few;
      long = omega (arith, long);
      wide = wide;
      inside = λ i e. omega (arith, next, loaded_unique (some f.header.num_pages) _ i refl e);
      clean = λ i e h. absurd cc;
      synced = λ h. absurd cc;
    }

    extended-others :
        (i : ℕ)
        → i ≢ f.header.num_pages
        → i < f.header.num_pages
        → image R (extended f io2 n page) i ≡ image R f i
    unfolding stored
    extended-others i other inside = elim (is_loaded-cases (some f.header.num_pages) i) [
      | inl here ↦ absurd (omega (arith, loaded_unique (some f.header.num_pages) _ i refl here))
      | inr absent ↦
          image_of_other R (extended f io2 n page) i absent
          ∙ before (page_start i) (page_start i + page_size) (omega (arith, sound.long))
              (omega (arith, next))
          ∙ stored_of_saved R f sound saved i
    ]

    Represents_extended :
        (s : Store)
        → Represents R f (record s { free = [] })
        → of_page page ≡ ok used
        → slice {E = PageStoreError} page 4 page_size ≡ ok zeros
        → Represents R
            (extended f io2 n page)
            (put (record s { free = []; pages = suc s.pages }) s.pages (some zeros))
    unfolding Holds Chain
    Represents_extended s r head content =
        let f' = extended f io2 n page in
        record {
          count = omega (arith, r.count, next);
          chain = r.chain;
          distinct = tt;
          unused = λ i l. absurd l;
          holds =
              holds_put R f f' (record s { free = [] }) s.pages (suc s.pages) (some zeros) r
                (omega arith)
                (λ i other h. extended-others i (λ e. other (omega (arith, e, r.count))) h)
                (λ b same. (
                  omega arith,
                  (
                    page,
                    image_of_loaded R f' s.pages (ap some r.count),
                    head,
                    content ∙ ap expect same,
                  ),
                ));
          covered = λ i h free.
              let (other, free') = put_free s s.pages zeros i free in
              r.covered i (omega (arith, h, other)) free';
        }

  -- A page is added at the end of the file.
  allocate_page-extended :
      (f : PageFile Io.State) (s : Store)
      → IsSound R f
      → Represents R f s
      → s.free ≡ []
      → suc s.pages < 4294967296
      → Runs (allocate_page Io) f (λ page_id f'.
        (page_id ≡ s.pages)
        × (IsSound R f'
            × Represents R f'
                (put (record s { free = []; pages = suc s.pages }) s.pages (some zeros))))
  unfolding Chain
  allocate_page-extended f s sound r e room =
      let r' = Represents_as R f (ap (λ ids. record s { free = ids }) e) r in
      let (u, f1, run, (sound1, fl)) = flush_loaded_page-Flushed R f sound in
      let pages : f1.header.num_pages ≡ f.header.num_pages = ap (λ h. h.num_pages) fl.kept.header in
      let n = suc f1.header.num_pages in
      let (io2, resized, long, before) = R.resize f1.io (page_start n) in
      let (page, written, set) =
        encode_page-HeaderSet (replicate page_size 0) used
          (omega (arith, length-replicate {A = ℕ} page_size 0)) used_range in
      let few : n < 4294967296 = omega (arith, pages, r.count) in
      let wide = set.wide ∙ length-replicate {A = ℕ} page_size 0 in
      (
        f.header.num_pages,
        extended f1 io2 n page,
        allocate_page-chosen Io f false (ap (λ z. not (eqb_ℤ z free_list_end)) r'.chain)
            ∙ finish-extends Io f f1 io2 n page run pages (one_more f1.header.num_pages few) resized
                written,
        (
          r.count,
          (
            extended-IsSound f1 sound1 fl.saved io2 n page refl few wide long before,
            Represents_extended f1 sound1 fl.saved io2 n page refl few wide long before s
                (Represents_kept R f f1 _ fl.kept r') set.header_set
                (set.content page_size ∙ data_of_zeros),
          ),
        ),
      )

  allocated_from :
      (f : PageFile Io.State) (s : Store) (free : List ℕ)
      → IsSound R f
      → Represents R f s
      → s.free ≡ free
      → (s.free ≡ [] → suc s.pages < 4294967296)
      → Runs (allocate_page Io) f (λ page_id f'.
        (page_id ≡ (allocated s free).0) × (IsSound R f' × Represents R f' (allocated s free).1))
  allocated_from f s [] sound r e room = allocate_page-extended f s sound r e (room e)
  allocated_from f s (id ∷ rest) sound r e room = allocate_page-reused R f s id rest sound r e

  -- Allocating hands out the page that was freed last, and a new page at the end of the file when
  -- none is free and the page count does not overflow; its data are zeros.
  pub allocate_page-allocate :
      (f : PageFile Io.State) (s : Store)
      → IsSound R f
      → Represents R f s
      → (s.free ≡ [] → suc s.pages < 4294967296)
      → Runs (allocate_page Io) f (λ page_id f'.
        (page_id ≡ (allocate s).0) × (IsSound R f' × Represents R f' (allocate s).1))
  allocate_page-allocate f s sound r room = allocated_from f s s.free sound r refl room
