-- ===== src/Page/File/Disposed.antt =====
-- `dispose_page` of storage/page.
use rs_redbase.Prelude.{
  ℕ, ◌≤◌, ◌<◌, ◌≡◌, ◌≢◌, refl, sym, ◌∙◌, ap, inl, inr, true, false, Option, none, some, leb, leb→le,
  if◌then◌else◌, length, Result, ok, err, Bool-cases, Option-cases, arith,
}
use rs_redbase.Prelude.Int.{ℤ, of_u32, eqb_ℤ}
use rs_redbase.Prelude.Bytes.{Bytes, copy_into, fill_range}
use rs_redbase.Storage.{PageStoreError, invalid_page_id, page_already_free}
use rs_redbase.Page.{page_used}
use rs_redbase.Page.Io.{PageIo, IsReliable}
use rs_redbase.Page.Header.{PageHeader, of_page, used, encode_page}
use rs_redbase.Page.File.{
  PageFile, load_page, current_page_header, write_current_page_header, clear_page_data,
  dispose_page,
}
use rs_redbase.Page.File.Sound.{IsSound}
use rs_redbase.Page.File.Loaded.{load_page_out_of_range}
use rs_redbase.Page.File.Edited.{
  encode_page-HeaderSet, fill_range-DataSet, edited, edited-here, edited-others, edited-IsSound,
}
use rs_redbase.Page.File.Store.{Store, put, release, Marked, Chain, Represents}
use rs_redbase.Page.File.Represented.{
  Represents_as, Chain-same, Chain-range, not-Listed, holds_put, put_here, put_other, same_or_other,
  All-Listed,
}
use rs_redbase.Page.File.Reads.{load_held, load_free}

module _ (Io : PageIo) (f f1 : PageFile Io.State) (id : ℕ)
    (loaded : load_page Io id f ≡ (f1, ok tt)) where
  dispose_page-run :
      (page page' : Bytes)
      → of_page f1.loaded_page ≡ ok used
      → fill_range {E = PageStoreError} f1.loaded_page 4 (length f1.loaded_page) 0 ≡ ok page
      → copy_into {E = PageStoreError} page 0
          (encode_page (record { next_free = f1.header.first_free_page }))
        ≡ ok page'
      → dispose_page Io id f ≡ (edited f1 page' (of_u32 id) true, ok tt)
  unfolding dispose_page current_page_header used clear_page_data write_current_page_header
  dispose_page-run page page' head cleared written = rw (loaded, head, cleared, written) refl

  dispose_page-refuses :
      (word : ℤ)
      → of_page f1.loaded_page ≡ ok (record { next_free = word })
      → eqb_ℤ word page_used ≡ false
      → dispose_page Io id f ≡ (f1, err (page_already_free id))
  unfolding dispose_page current_page_header
  dispose_page-refuses word head free = rw (loaded, head, free) refl

dispose_page-missing :
    (Io : PageIo) (f : PageFile Io.State) (id : ℕ)
    → load_page Io id f ≡ (f, err (invalid_page_id id))
    → dispose_page Io id f ≡ (f, err (invalid_page_id id))
unfolding dispose_page
dispose_page-missing Io f id missing = rw missing refl

abbrev pub disposed : ℕ → ℕ → Option Bytes → Result PageStoreError (Unit {0})
disposed pages id none = err (if leb pages id then invalid_page_id id else page_already_free id)
disposed pages id (some old) = ok tt

abbrev released_over : ℕ → Store → Option Bytes → Store
released_over id s none = s
released_over id s (some old) = release id s

-- The store after the page was disposed of, if it has content.
abbrev pub released : ℕ → Store → Store
released id s = released_over id s (s.content id)

module _ {Io : PageIo} (R : IsReliable Io) where
  -- The page in memory became the head of the free list.
  Represents_released :
      (f : PageFile Io.State) (s : Store) (id : ℕ) (old page : Bytes)
      → Represents R f s
      → s.content id ≡ some old
      → id < 2147483648
      → f.loaded_page_id ≡ some id
      → of_page page ≡ ok (record { next_free = f.header.first_free_page })
      → Represents R (edited f page (of_u32 id) true) (release id s)
  unfolding Chain Marked
  Represents_released f s id old page r e small here head =
      let f' = edited f page (of_u32 id) true in
      let others = edited-others R f id here page (of_u32 id) true in
      let absent = not-Listed R f s id old r e in
      let inside = (r.holds id old e).0 in
      record {
        count = r.count;
        chain = (
          ground arith,
          omega (arith, r.count),
          small,
          (
            f.header.first_free_page,
            (page, edited-here R f id here page (of_u32 id) true, head),
            Chain-same R f f' f.header.first_free_page s.free (omega arith)
                (λ i l h. others i (absent i l)) r.chain,
          ),
        );
        distinct = (All-Listed (λ j. j ≢ id) s.free absent, r.distinct);
        unused = λ i l. elim l [
          | inl same ↦ ap (put s id none).content same ∙ put_here s id none
          | inr later ↦ put_other s id none i (absent i later) ∙ r.unused i later
        ];
        holds =
            holds_put R f f' s id s.pages none r (omega arith) (λ i h k. others i h)
              (λ b same. absurd cc);
        covered = λ i h free. elim (same_or_other i id) [
          | inl same ↦ inl same
          | inr other ↦ inr (r.covered i h (sym (put_other s id none i other) ∙ free))
        ];
      }

module _ {Io : PageIo} (R : IsReliable Io) (f : PageFile Io.State) (s : Store) (id : ℕ)
    (sound : IsSound R f) (r : Represents R f s) (small : id < 2147483648) where
  -- Over a file that does not fail, and for a page number below 2^31, which the links of the free list
  -- can hold: disposing of a page that has content makes it the first free page; a page that is free,
  -- and a number that is no page's, are refused, each with its error.
  pub dispose_page-released :
      (f' : PageFile Io.State) × (dispose_page Io id f ≡ (f', disposed s.pages id (s.content id)))
      × (IsSound R f' × Represents R f' (released id s))
  dispose_page-released = elim (Option-cases (s.content id)) [
    | inr (old, e) ↦
        let (u, f1, run, (sound1, r1, here, head, content)) = load_held R f s id old sound r e in
        let (page1, cleared, set) = fill_range-DataSet f1.loaded_page sound1.wide in
        let header : PageHeader = record { next_free = f1.header.first_free_page } in
        let (page2, written, set2) =
          encode_page-HeaderSet page1 header (omega (arith, set.wide, sound1.wide))
            (Chain-range R f1 f1.header.first_free_page s.free r1.chain) in
        let f2 = edited f1 page2 (of_u32 id) true in
        (
          f2,
          dispose_page-run Io f f1 id run page1 page2 head cleared written
              ∙ ap (λ o. (f2, disposed s.pages id o)) (sym e),
          (
            edited-IsSound R f1 id here page2 (of_u32 id) true sound1
                (set2.wide ∙ set.wide ∙ sound1.wide) (λ h. absurd cc),
            Represents_as R f2 (ap (released_over id s) (sym e))
                (Represents_released R f1 s id old page2 r1 e small here set2.header_set),
          ),
        )
    | inl e ↦ elim (Bool-cases (leb s.pages id)) [
      | inl outside ↦
          let beyond : f.header.num_pages ≤ id =
            omega (arith, r.count, leb→le s.pages id outside) in
          (
            f,
            dispose_page-missing Io f id (load_page_out_of_range R f id beyond)
                ∙ ap (λ b. (f, err (if b then invalid_page_id id else page_already_free id)))
                    (sym outside)
                ∙ ap (λ o. (f, disposed s.pages id o)) (sym e),
            (sound, Represents_as R f (ap (released_over id s) (sym e)) r),
          )
      | inr within ↦
          let (u, f1, run, (sound1, r1, (word, head, free))) =
            load_free R f s id sound r e (ground arith) in
          (
            f1,
            dispose_page-refuses Io f f1 id run word head free
                ∙ ap (λ b. (f1, err (if b then invalid_page_id id else page_already_free id)))
                    (sym within)
                ∙ ap (λ o. (f1, disposed s.pages id o)) (sym e),
            (sound1, Represents_as R f1 (ap (released_over id s) (sym e)) r1),
          )
    ]
  ]
