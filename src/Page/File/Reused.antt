-- ===== src/Page/File/Reused.antt =====
-- `allocate_page` of storage/page when a page is free.
use rs_redbase.Prelude.{
  ℕ, ◌<◌, ◌≡◌, ◌≢◌, refl, sym, ◌∙◌, ap, inl, inr, Bool, true, some, List, ◌∷◌, not, length, ok,
  expect, arith,
}
use rs_redbase.Prelude.Int.{ℤ, to_u32, eqb_ℤ}
use rs_redbase.Prelude.Call.{Runs, ◌>>=◌, ◌>>◌, modify, pure}
use rs_redbase.Prelude.Bytes.{Bytes, slice, copy_into, fill_range}
use rs_redbase.Storage.{PageStoreError}
use rs_redbase.Page.{page_size, free_list_end}
use rs_redbase.Page.Io.{PageIo, IsReliable}
use rs_redbase.Page.Header.{of_page, used, encode_page}
use rs_redbase.Page.File.{
  PageFile, load_page, current_page_header, write_current_page_header, clear_page_data, reuse_page,
  FileCall, take_page, allocate_page,
}
use rs_redbase.Page.File.Sound.{IsSound}
use rs_redbase.Page.File.Loaded.{load_page-Loaded}
use rs_redbase.Page.File.Edited.{
  used_range, encode_page-HeaderSet, fill_range-DataSet, edited, edited-here, edited-others,
  edited-IsSound,
}
use rs_redbase.Page.File.Store.{Store, zeros, put, Listed, Marked, Holds, Chain, Represents}
use rs_redbase.Page.File.Represented.{
  Represents_as, Represents_kept, Chain-same, holds_put, put_other, put_free, Listed-All,
}
use rs_redbase.Page.File.Reads.{Loaded-page}

-- The calls of `allocate_page` after the choice.
abbrev pub finish : (Io : PageIo) → Bool → FileCall Io.State ℕ
finish Io reuse = take_page Io reuse >>= λ page_id.
    modify (λ f. record f { header_dirty = true; loaded_page_dirty = true }) >> pure page_id

pub allocate_page-chosen :
    (Io : PageIo) (f : PageFile Io.State) (reuse : Bool)
    → not (eqb_ℤ f.header.first_free_page free_list_end) ≡ reuse
    → allocate_page Io f ≡ finish Io reuse f
unfolding allocate_page
allocate_page-chosen Io f reuse e = ap (λ b. finish Io b f) e

finish-reuses :
    (Io : PageIo) (f f1 : PageFile Io.State) (id : ℕ) (next : ℤ) (page page' : Bytes)
    → to_u32 f.header.first_free_page ≡ id
    → load_page Io id f ≡ (f1, ok tt)
    → of_page f1.loaded_page ≡ ok (record { next_free = next })
    → copy_into {E = PageStoreError} f1.loaded_page 0 (encode_page used) ≡ ok page
    → fill_range {E = PageStoreError} page 4 (length page) 0 ≡ ok page'
    → finish Io true f ≡ (edited f1 page' next true, ok id)
unfolding reuse_page current_page_header write_current_page_header clear_page_data
finish-reuses Io f f1 id next page page' first loaded head written cleared =
    rw (first, loaded, head, written, cleared) refl

module _ {Io : PageIo} (R : IsReliable Io) where
  -- The page in memory left the free list.
  Represents_reused :
      (f : PageFile Io.State) (s : Store) (id : ℕ) (rest : List ℕ) (next : ℤ) (page : Bytes)
      → Represents R f (record s { free = id ∷ rest })
      → Chain R f next rest
      → id < f.header.num_pages
      → f.loaded_page_id ≡ some id
      → of_page page ≡ ok used
      → slice {E = PageStoreError} page 4 page_size ≡ ok zeros
      → Represents R (edited f page next true) (put (record s { free = rest }) id (some zeros))
  unfolding Holds
  Represents_reused f s id rest next page r chain inside here head content =
      let f' = edited f page next true in
      let others = edited-others R f id here page next true in
      let distinct = r.distinct in
      let apart : (i : ℕ) → Listed i rest → i ≢ id =
        λ i l. Listed-All (λ j. j ≢ id) i rest l distinct.0 in
      record {
        count = r.count;
        chain = Chain-same R f f' next rest (omega arith) (λ i l h. others i (apart i l)) chain;
        distinct = distinct.1;
        unused = λ i l. put_other s id (some zeros) i (apart i l) ∙ r.unused i (inr l);
        holds =
            holds_put R f f' (record s { free = id ∷ rest }) id s.pages (some zeros) r (omega arith)
              (λ i h k. others i h)
              (λ b same. (
                omega (arith, r.count),
                (page, edited-here R f id here page next true, head, content ∙ ap expect same),
              ));
        covered = λ i h free.
            let (other, free') = put_free s id zeros i free in
            elim (r.covered i h free') [ inl same ↦ absurd (other same) | inr later ↦ later ];
      }

  -- The page at the head of the free list is handed out, cleared.
  pub allocate_page-reused :
      (f : PageFile Io.State) (s : Store) (id : ℕ) (rest : List ℕ)
      → IsSound R f
      → Represents R f s
      → s.free ≡ id ∷ rest
      → Runs (allocate_page Io) f (λ page_id f'.
        (page_id ≡ id)
        × (IsSound R f' × Represents R f' (put (record s { free = rest }) id (some zeros))))
  unfolding Chain Marked
  allocate_page-reused f s id rest sound r e =
      let r' = Represents_as R f (ap (λ ids. record s { free = ids }) e) r in
      let (first, inside, small, (next, (page, read, head), tail)) = r'.chain in
      let (u, f1, run, (sound1, l)) = load_page-Loaded R f id sound inside in
      let same = Loaded-page R f f1 id page l inside read in
      let wide1 = sound1.wide in
      let (page1, written, set) =
        encode_page-HeaderSet f1.loaded_page used (omega arith) used_range in
      let (page2, cleared, set2) = fill_range-DataSet page1 (set.wide ∙ wide1) in
      let pages : f1.header.num_pages ≡ f.header.num_pages = ap (λ h. h.num_pages) l.kept.header in
      (
        id,
        edited f1 page2 next true,
        allocate_page-chosen Io f true (ap (λ z. not (eqb_ℤ z free_list_end)) first)
            ∙ finish-reuses Io f f1 id next page1 page2 (ap to_u32 first) run
                (ap of_page (sym same) ∙ head) written cleared,
        (
          refl,
          (
            edited-IsSound R f1 id l.here page2 next true sound1
                (set2.wide ∙ set.wide ∙ sound1.wide) (λ h. absurd cc),
            Represents_reused f1 s id rest next page2 (Represents_kept R f f1 _ l.kept r')
                (Chain-same R f f1 next rest (omega arith) (λ i k h. l.kept.images i h) tail)
                (omega arith) l.here (set2.header ∙ set.header_set) set2.data_set,
          ),
        ),
      )
