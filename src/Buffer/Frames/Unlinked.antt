-- ===== src/Buffer/Frames/Unlinked.antt =====
-- `unlink` of storage/buffer takes a frame out of the list.
use rs_redbase.Prelude.{
  ℕ, ◌≡◌, refl, sym, ◌∙◌, ap, inl, Option, none, some, List, [], ◌∷◌, ◌++◌, ==_refl, get_elem?,
  get_elem?-set_ne, set, ok,
}
use rs_redbase.Page.File.Store.{Listed, Distinct}
use rs_redbase.Buffer.{Frame, BufferPoolState}
use rs_redbase.Buffer.Frames.{change_frame, skip_forward, skip_back, unlink}
use rs_redbase.Buffer.Frames.Links.{
  first_or, last_or, Segment, SamePayload, SamePayload-refl, set_here, set-SamePayload,
  change_frame-run, Segment-set,
}
use rs_redbase.Buffer.Frames.Numbers.{
  Distinct-head, Listed-as, last_of, last_of-Listed, last_or-append, last_or-some,
}

-- The last frame of a part got another link.
relink_end :
    (frames : List Frame) (prev : Option ℕ) (k : ℕ) (ks : List ℕ) (next next' : Option ℕ)
    → Distinct (k ∷ ks)
    → Segment frames prev (k ∷ ks) next
    → (f : Frame) × (get_elem? frames (last_of k ks) ≡ some f)
      × Segment (set frames (last_of k ks) (record f { next = next' })) prev (k ∷ ks) next'
unfolding Segment
relink_end frames prev k [] next next' d (f, e, before, after, u) =
    (f, e, (record f { next = next' }, set_here frames k f _ e, before, refl, tt))
relink_end frames prev k (j ∷ js) next next' d (f, e, before, after, rest) =
    let (g, found, linked) = relink_end frames (some k) j js next next' d.1 rest in
    let apart = Distinct-head k (j ∷ js) d (last_of j js) (last_of-Listed j js) in
    (g, found, (f, get_elem?-set_ne frames _ apart ∙ e, before, after, linked))

-- The first frame of a part got another link.
pub relink_start :
    (frames : List Frame) (prev prev' : Option ℕ) (k : ℕ) (ks : List ℕ) (next : Option ℕ)
    → Distinct (k ∷ ks)
    → Segment frames prev (k ∷ ks) next
    → (f : Frame) × (get_elem? frames k ≡ some f)
      × Segment (set frames k (record f { prev = prev' })) prev' (k ∷ ks) next
unfolding Segment
relink_start frames prev prev' k ks next d (f, e, before, after, rest) = (
  f,
  e,
  (
    record f { prev = prev' },
    set_here frames k f _ e,
    refl,
    after,
    Segment-set frames (some k) ks next k _ (λ l. Distinct-head k ks d k l refl) rest,
  ),
)

module _ {S : Type 0} where
  -- The frames before the one that is taken out.
  pub skip_forward-Segment :
      (s : BufferPoolState S) (i : ℕ) (pre post : List ℕ)
      → s.mru_head ≡ first_or (pre ++ (i ∷ post)) none
      → Distinct pre
      → Segment s.frames none pre (some i)
      → (frames : List Frame) × (head : Option ℕ) × (skip_forward i
            (last_or none pre)
            (first_or post none)
            s
          ≡ (record s { frames = frames; mru_head = head }, ok tt))
        × (head ≡ first_or (pre ++ post) none)
        × Segment frames none pre (first_or post none)
        × ((k : ℕ) → (Listed k pre → ⊥) → get_elem? frames k ≡ get_elem? s.frames k)
        × SamePayload s.frames frames
  unfolding Segment
  skip_forward-Segment s i [] post head d u = (
    s.frames,
    first_or post none,
    rw (head, ==_refl i) refl,
    refl,
    tt,
    λ k absent. refl,
    SamePayload-refl s.frames,
  )
  skip_forward-Segment s i (j ∷ js) post head d links =
      let (f, found, linked) =
        relink_end s.frames none j js (some i) (first_or post none) d links in
      let k = last_of j js in
      (
        set s.frames k (record f { next = first_or post none }),
        s.mru_head,
        ap (λ o. skip_forward i o (first_or post none) s) (last_or-some j js)
            ∙ change_frame-run s k (λ f. record f { next = first_or post none }) f found,
        head,
        linked,
        λ m absent.
            get_elem?-set_ne s.frames _
              (λ same. absent (Listed-as (j ∷ js) same (last_of-Listed j js))),
        set-SamePayload s.frames k f _ found refl,
      )

  -- And the frames after it.
  pub skip_back-Segment :
      (s : BufferPoolState S) (i : ℕ) (pre post : List ℕ)
      → s.lru_tail ≡ last_or none (pre ++ (i ∷ post))
      → Distinct post
      → Segment s.frames (some i) post none
      → (frames : List Frame) × (tail : Option ℕ) × (skip_back i
            (last_or none pre)
            (first_or post none)
            s
          ≡ (record s { frames = frames; lru_tail = tail }, ok tt))
        × (tail ≡ last_or none (pre ++ post))
        × Segment frames (last_or none pre) post none
        × ((k : ℕ) → (Listed k post → ⊥) → get_elem? frames k ≡ get_elem? s.frames k)
        × SamePayload s.frames frames
  unfolding Segment
  skip_back-Segment s i pre [] tail d u = (
    s.frames,
    last_or none pre,
    rw (tail, last_or-append none pre (i ∷ []), ==_refl i) refl,
    sym (last_or-append none pre []),
    tt,
    λ k absent. refl,
    SamePayload-refl s.frames,
  )
  skip_back-Segment s i pre (j ∷ js) tail d links =
      let (f, found, linked) =
        relink_start s.frames (some i) (last_or none pre) j js none d links in
      (
        set s.frames j (record f { prev = last_or none pre }),
        s.lru_tail,
        change_frame-run s j (λ f. record f { prev = last_or none pre }) f found,
        tail ∙ last_or-append none pre (i ∷ j ∷ js) ∙ sym (last_or-append none pre (j ∷ js)),
        linked,
        λ m absent. get_elem?-set_ne s.frames _ (λ same. absent (inl (sym same))),
        set-SamePayload s.frames j f _ found refl,
      )

  pub unlink-run :
      (s s1 s2 : BufferPoolState S) (i : ℕ) (f f2 : Frame)
      → get_elem? s.frames i ≡ some f
      → skip_forward i f.prev f.next s ≡ (s1, ok tt)
      → skip_back i f.prev f.next s1 ≡ (s2, ok tt)
      → get_elem? s2.frames i ≡ some f2
      → unlink i s
        ≡ (record s2 { frames = set s2.frames i (record f2 { prev = none; next = none }) }, ok tt)
  unfolding unlink change_frame
  unlink-run s s1 s2 i f f2 found forward back found2 = rw (found, forward, back, found2) refl
