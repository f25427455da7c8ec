-- ===== src/Page/File/Writes.antt =====
-- `write_page` of storage/page, with what the holder of its guard writes.
use rs_redbase.Prelude.{
  ℕ, ◌≤◌, ◌≡◌, refl, sym, ◌∙◌, ap, inl, inr, false, Option, none, some, leb, leb→le, length, Result,
  ok, err, expect, Bool-cases, Option-cases, arith,
}
use rs_redbase.Prelude.Int.{ℤ, eqb_ℤ}
use rs_redbase.Prelude.Call.{◌>>=◌}
use rs_redbase.Prelude.Bytes.{Bytes, slice, copy_into}
use rs_redbase.Storage.{PageStoreError, invalid_page_id}
use rs_redbase.Page.{page_used}
use rs_redbase.Page.Io.{PageIo, IsReliable}
use rs_redbase.Page.Header.{of_page, used}
use rs_redbase.Page.File.{
  PageFile, FileCall, load_page, current_page_header, ensure_current_page_is_used, page_data,
  put_page_data, write_page,
}
use rs_redbase.Page.File.Sound.{IsSound}
use rs_redbase.Page.File.Loaded.{load_page_out_of_range}
use rs_redbase.Page.File.Edited.{
  DataSet, copy_into-DataSet, edited, edited-here, edited-others, edited-IsSound,
}
use rs_redbase.Page.File.Store.{Store, put, Holds, Represents}
use rs_redbase.Page.File.Represented.{
  Represents_as, Chain-same, not-Listed, holds_put, put_other, put_free,
}
use rs_redbase.Page.File.Reads.{load_held, load_free}

-- A page is fetched for writing and its data are replaced.
abbrev pub overwrite_page : (Io : PageIo) → ℕ → Bytes → FileCall Io.State (Unit {0})
overwrite_page Io id bytes = write_page Io id >>= λ _. put_page_data bytes

module _ (Io : PageIo) (f f1 : PageFile Io.State) (id : ℕ) (bytes : Bytes)
    (loaded : load_page Io id f ≡ (f1, ok tt)) where
  write_page-run :
      (old page : Bytes)
      → of_page f1.loaded_page ≡ ok used
      → slice {E = PageStoreError} f1.loaded_page 4 (length f1.loaded_page) ≡ ok old
      → copy_into {E = PageStoreError} f1.loaded_page 4 bytes ≡ ok page
      → overwrite_page Io id bytes f
        ≡ (edited f1 page f1.header.first_free_page f1.header_dirty, ok tt)
  unfolding write_page ensure_current_page_is_used current_page_header page_data used put_page_data
  write_page-run old page head content copied = rw (loaded, head, content, copied) refl

  write_page-refuses :
      (word : ℤ)
      → of_page f1.loaded_page ≡ ok (record { next_free = word })
      → eqb_ℤ word page_used ≡ false
      → overwrite_page Io id bytes f ≡ (f1, err (invalid_page_id id))
  unfolding write_page ensure_current_page_is_used current_page_header
  write_page-refuses word head free = rw (loaded, head, free) refl

write_page-missing :
    (Io : PageIo) (f : PageFile Io.State) (id : ℕ) (bytes : Bytes)
    → load_page Io id f ≡ (f, err (invalid_page_id id))
    → overwrite_page Io id bytes f ≡ (f, err (invalid_page_id id))
unfolding write_page
write_page-missing Io f id bytes missing = rw missing refl

abbrev pub accepted : ℕ → Option Bytes → Result PageStoreError (Unit {0})
accepted id none = err (invalid_page_id id)
accepted id (some old) = ok tt

abbrev overwritten_over : ℕ → Bytes → Store → Option Bytes → Store
overwritten_over id bytes s none = s
overwritten_over id bytes s (some old) = put s id (some bytes)

-- The store after the page was overwritten, if it has content.
abbrev pub overwritten : ℕ → Bytes → Store → Store
overwritten id bytes s = overwritten_over id bytes s (s.content id)

module _ {Io : PageIo} (R : IsReliable Io) where
  -- The page in memory got new data.
  Represents_overwritten :
      (f : PageFile Io.State) (s : Store) (id : ℕ) (old bytes page : Bytes)
      → Represents R f s
      → s.content id ≡ some old
      → f.loaded_page_id ≡ some id
      → of_page f.loaded_page ≡ ok used
      → DataSet bytes f.loaded_page page
      → Represents R (edited f page f.header.first_free_page f.header_dirty) (put s id (some bytes))
  unfolding Holds
  Represents_overwritten f s id old bytes page r e here head set =
      let f' = edited f page f.header.first_free_page f.header_dirty in
      let others = edited-others R f id here page f.header.first_free_page f.header_dirty in
      let absent = not-Listed R f s id old r e in
      let inside = (r.holds id old e).0 in
      record {
        count = r.count;
        chain =
            Chain-same R f f' f.header.first_free_page s.free (omega arith)
              (λ i l h. others i (absent i l)) r.chain;
        distinct = r.distinct;
        unused = λ i l. put_other s id (some bytes) i (absent i l) ∙ r.unused i l;
        holds =
            holds_put R f f' s id s.pages (some bytes) r (omega arith) (λ i h k. others i h)
              (λ b same. (
                inside,
                (
                  page,
                  edited-here R f id here page f.header.first_free_page f.header_dirty,
                  set.header ∙ head,
                  set.data_set ∙ ap expect same,
                ),
              ));
        covered = λ i h free. r.covered i h (put_free s id bytes i free).1;
      }

module _ {Io : PageIo} (R : IsReliable Io) (f : PageFile Io.State) (s : Store) (id : ℕ)
    (bytes : Bytes) (sound : IsSound R f) (r : Represents R f s) (long : length bytes ≡ 4092) where
  -- Overwriting a page's data changes the content of that page alone, and is refused for a page that
  -- is free or does not exist.
  pub overwrite_page-overwritten :
      (f' : PageFile Io.State) × (overwrite_page Io id bytes f ≡ (f', accepted id (s.content id)))
      × (IsSound R f' × Represents R f' (overwritten id bytes s))
  overwrite_page-overwritten = elim (Option-cases (s.content id)) [
    | inr (old, e) ↦
        let (u, f1, run, (sound1, r1, here, head, content)) = load_held R f s id old sound r e in
        let (page, copied, set) = copy_into-DataSet f1.loaded_page bytes sound1.wide long in
        let f2 = edited f1 page f1.header.first_free_page f1.header_dirty in
        (
          f2,
          write_page-run Io f f1 id bytes run old page head content copied
              ∙ ap (λ o. (f2, accepted id o)) (sym e),
          (
            edited-IsSound R f1 id here page f1.header.first_free_page f1.header_dirty sound1
                (set.wide ∙ sound1.wide) (λ h. (refl, h)),
            Represents_as R f2 (ap (overwritten_over id bytes s) (sym e))
                (Represents_overwritten R f1 s id old bytes page r1 e here head set),
          ),
        )
    | inl e ↦ elim (Bool-cases (leb s.pages id)) [
      | inl outside ↦
          let beyond : f.header.num_pages ≤ id =
            omega (arith, r.count, leb→le s.pages id outside) in
          (
            f,
            write_page-missing Io f id bytes (load_page_out_of_range R f id beyond)
                ∙ ap (λ o. (f, accepted id o)) (sym e),
            (sound, Represents_as R f (ap (overwritten_over id bytes s) (sym e)) r),
          )
      | inr within ↦
          let (u, f1, run, (sound1, r1, (word, head, free))) =
            load_free R f s id sound r e (ground arith) in
          (
            f1,
            write_page-refuses Io f f1 id bytes run word head free
                ∙ ap (λ o. (f1, accepted id o)) (sym e),
            (sound1, Represents_as R f1 (ap (overwritten_over id bytes s) (sym e)) r1),
          )
    ]
  ]
