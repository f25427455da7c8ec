-- ===== src/Page/File/Reads.antt =====
-- `read_page` and `write_page` of storage/page.
use rs_redbase.Prelude.{
  ℕ, ◌≤◌, ◌<◌, ◌≡◌, refl, sym, ◌∙◌, ap, inl, inr, false, Option, none, some, leb, leb→le, length,
  Result, ok, err, ok_injective, Bool-cases, Option-cases, arith,
}
use rs_redbase.Prelude.Int.{ℤ, eqb_ℤ}
use rs_redbase.Prelude.Call.{Runs}
use rs_redbase.Prelude.Bytes.{Bytes, slice}
use rs_redbase.Storage.{PageStoreError, invalid_page_id}
use rs_redbase.Page.{page_size, page_used}
use rs_redbase.Page.Io.{PageIo, IsReliable}
use rs_redbase.Page.Header.{of_page, used}
use rs_redbase.Page.File.{
  PageFile, load_page, current_page_header, ensure_current_page_is_used, page_data, read_page,
}
use rs_redbase.Page.File.Sound.{image, IsSound, image_of_loaded}
use rs_redbase.Page.File.Loaded.{Loaded, load_page-Loaded, load_page_out_of_range}
use rs_redbase.Page.File.Store.{Store, Marked, Holds, Represents}
use rs_redbase.Page.File.Represented.{Represents_kept, Chain-Marked}

module _ (Io : PageIo) (f f1 : PageFile Io.State) (id : ℕ)
    (loaded : load_page Io id f ≡ (f1, ok tt)) where
  read_page-run :
      (bytes : Bytes)
      → of_page f1.loaded_page ≡ ok used
      → slice {E = PageStoreError} f1.loaded_page 4 (length f1.loaded_page) ≡ ok bytes
      → read_page Io id f ≡ (f1, ok bytes)
  unfolding read_page ensure_current_page_is_used current_page_header page_data used
  read_page-run bytes head content = rw (loaded, head, content) refl

  read_page-refuses :
      (word : ℤ)
      → of_page f1.loaded_page ≡ ok (record { next_free = word })
      → eqb_ℤ word page_used ≡ false
      → read_page Io id f ≡ (f1, err (invalid_page_id id))
  unfolding read_page ensure_current_page_is_used current_page_header
  read_page-refuses word head free = rw (loaded, head, free) refl

read_page-missing :
    (Io : PageIo) (f : PageFile Io.State) (id : ℕ)
    → load_page Io id f ≡ (f, err (invalid_page_id id))
    → read_page Io id f ≡ (f, err (invalid_page_id id))
unfolding read_page
read_page-missing Io f id missing = rw missing refl

module _ {Io : PageIo} (R : IsReliable Io) where
  -- What is in memory after a page was loaded.
  pub Loaded-page :
      (f f1 : PageFile Io.State) (id : ℕ) (page : Bytes)
      → Loaded R f id f1
      → id < f.header.num_pages
      → image R f id ≡ ok page
      → page ≡ f1.loaded_page
  Loaded-page f f1 id page l inside e =
      ok_injective (sym e ∙ sym (l.kept.images id inside) ∙ image_of_loaded R f1 id l.here)

  -- A page with content is loaded, with a used page's header and that content in memory.
  pub load_held :
      (f : PageFile Io.State) (s : Store) (id : ℕ) (bytes : Bytes)
      → IsSound R f
      → Represents R f s
      → s.content id ≡ some bytes
      → Runs (load_page Io id) f (λ _ f1.
        IsSound R f1
        × Represents R f1 s
        × (f1.loaded_page_id ≡ some id)
        × (of_page f1.loaded_page ≡ ok used)
        × (slice {E = PageStoreError} f1.loaded_page 4 (length f1.loaded_page) ≡ ok bytes))
  unfolding Holds
  load_held f s id bytes sound r e =
      let (inside, (page, read, head, content)) = r.holds id bytes e in
      let inside' : id < f.header.num_pages = omega (arith, r.count) in
      let (u, f1, run, (sound1, l)) = load_page-Loaded R f id sound inside' in
      let same = Loaded-page f f1 id page l inside' read in
      (
        tt,
        f1,
        run,
        (
          sound1,
          Represents_kept R f f1 s l.kept r,
          l.here,
          ap of_page (sym same) ∙ head,
          ap (λ n. slice f1.loaded_page 4 n) sound1.wide
              ∙ ap (λ p. slice p 4 page_size) (sym same)
              ∙ content,
        ),
      )

  -- A free page is loaded, with another header in memory.
  pub load_free :
      (f : PageFile Io.State) (s : Store) (id : ℕ)
      → IsSound R f
      → Represents R f s
      → s.content id ≡ none
      → id < s.pages
      → Runs (load_page Io id) f (λ _ f1.
        IsSound R f1
        × Represents R f1 s
        × ((word : ℤ) × (of_page f1.loaded_page ≡ ok (record { next_free = word }))
            × (eqb_ℤ word page_used ≡ false)))
  unfolding Marked
  load_free f s id sound r e inside =
      let listed = r.covered id inside e in
      let (word, (page, read, head), free) =
        Chain-Marked R f f.header.first_free_page s.free id r.chain listed in
      let inside' : id < f.header.num_pages = omega (arith, r.count) in
      let (u, f1, run, (sound1, l)) = load_page-Loaded R f id sound inside' in
      let same = Loaded-page f f1 id page l inside' read in
      (
        tt,
        f1,
        run,
        (sound1, Represents_kept R f f1 s l.kept r, (word, ap of_page (sym same) ∙ head, free)),
      )

-- The data of a page, and the refusal when it has none.
abbrev pub answer : ℕ → Option Bytes → Result PageStoreError Bytes
answer id none = err (invalid_page_id id)
answer id (some bytes) = ok bytes

module _ {Io : PageIo} (R : IsReliable Io) (f : PageFile Io.State) (s : Store) (id : ℕ)
    (sound : IsSound R f) (r : Represents R f s) where
  -- Reading a page returns its content, and is refused for a page that is free or does not exist;
  -- the store is unchanged.
  pub read_page-answer :
      (f' : PageFile Io.State) × (read_page Io id f ≡ (f', answer id (s.content id)))
      × (IsSound R f' × Represents R f' s)
  read_page-answer = elim (Option-cases (s.content id)) [
    | inr (bytes, e) ↦
        let (u, f1, run, (sound1, r1, here, head, content)) = load_held R f s id bytes sound r e in
        (
          f1,
          read_page-run Io f f1 id run bytes head content ∙ ap (λ o. (f1, answer id o)) (sym e),
          (sound1, r1),
        )
    | inl e ↦ elim (Bool-cases (leb s.pages id)) [
      | inl outside ↦
          let beyond : f.header.num_pages ≤ id =
            omega (arith, r.count, leb→le s.pages id outside) in
          (
            f,
            read_page-missing Io f id (load_page_out_of_range R f id beyond)
                ∙ ap (λ o. (f, answer id o)) (sym e),
            (sound, r),
          )
      | inr within ↦
          let (u, f1, run, (sound1, r1, (word, head, free))) =
            load_free R f s id sound r e (ground arith) in
          (
            f1,
            read_page-refuses Io f f1 id run word head free ∙ ap (λ o. (f1, answer id o)) (sym e),
            (sound1, r1),
          )
    ]
  ]
