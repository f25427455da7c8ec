-- ===== src/Buffer/Frames/Touched.antt =====
-- `touch` of storage/buffer moves a frame to the front of the list.
use rs_redbase.Prelude.{
  ℕ, ◌<◌, ◌≡◌, ◌≢◌, refl, sym, ◌∙◌, ap, ap₂, inl, inr, false, none, some, List, [], ◌∷◌, ◌++◌, ◌==◌,
  if◌then◌else◌, get_elem?, get_elem?-set_ne, get_elem?_of_lt, set, length, ok, arith,
}
use rs_redbase.Page.File.Store.{Listed}
use rs_redbase.Page.File.Represented.{same_or_other, All-Listed}
use rs_redbase.Buffer.{Frame, BufferPoolState}
use rs_redbase.Buffer.Frames.{
  change_frame, set_prev, skip_forward, skip_back, is_end, link_head, unlink, touch,
}
use rs_redbase.Buffer.Frames.Links.{
  first_or, last_or, Segment, SamePayload-trans, set_here, set-SamePayload, change_frame-run,
  get_unique, Segment-set,
}
use rs_redbase.Buffer.Frames.Unlinked.{relink_start, unlink-run}
use rs_redbase.Buffer.Frames.Linked.{Linked, SameBesides, SameBesides-trans, unlink_listed}
use rs_redbase.Buffer.Frames.Numbers.{
  Distinct-without, Listed-as, last_of, last_of-Listed, last_or-some, without, without-cases,
}

head_elsewhere : (i : ℕ) (ids : List ℕ) → (Listed i ids → ⊥) → is_end (first_or ids none) i ≡ false
head_elsewhere i [] absent = refl
head_elsewhere i (j ∷ js) absent =
    let other : j ≢ i = λ same. absent (inl (sym same)) in ground arith

tail_elsewhere : (i : ℕ) (ids : List ℕ) → (Listed i ids → ⊥) → is_end (last_or none ids) i ≡ false
tail_elsewhere i [] absent = refl
tail_elsewhere i (j ∷ js) absent =
    let k = last_of j js in
    let other : k ≢ i = λ same. absent (Listed-as (j ∷ js) same (last_of-Listed j js)) in
    let differ : (k == i) ≡ false = ground arith in
    ap (λ o. is_end o i) (last_or-some j js) ∙ differ

module _ {S : Type 0} where
  -- Taking out a frame that is not in the list changes nothing of it.
  unlink_loose :
      (s : BufferPoolState S) (ids : List ℕ) (i : ℕ) (f : Frame)
      → Linked s ids
      → get_elem? s.frames i ≡ some f
      → (Listed i ids → ⊥)
      → (s' : BufferPoolState S) × (unlink i s ≡ (s', ok tt)) × Linked s' ids × SameBesides s s'
  unlink_loose s ids i f l found absent =
      let (before, after) = l.loose i f found absent in
      let fs' = set s.frames i (record f { prev = none; next = none }) in
      (
        record s { frames = fs' },
        unlink-run s s s i f f found
            (ap₂ (λ a b. skip_forward i a b s) before after
              ∙ ap (λ b. (if b then record s { mru_head = none } else s, ok tt))
                  (ap (λ o. is_end o i) l.head ∙ head_elsewhere i ids absent))
            (ap₂ (λ a b. skip_back i a b s) before after
              ∙ ap (λ b. (if b then record s { lru_tail = none } else s, ok tt))
                  (ap (λ o. is_end o i) l.tail ∙ tail_elsewhere i ids absent))
            found,
        record {
          head = l.head;
          tail = l.tail;
          links = Segment-set s.frames none ids none i _ absent l.links;
          distinct = l.distinct;
          loose = λ k g e out. elim (same_or_other k i) [
            | inl same ↦
                let u = get_unique fs' k i g _ e (set_here s.frames i f _ found) same in
                (ap (λ g. g.prev) u, ap (λ g. g.next) u)
            | inr other ↦
                l.loose k g (sym (get_elem?-set_ne s.frames _ (λ h. other (sym h))) ∙ e) out
          ];
        },
        record {
          files = refl;
          next_file_id = refl;
          page_table = refl;
          free_list = refl;
          frames = set-SamePayload s.frames i f _ found refl;
        },
      )

  -- The frame with the links of a first one.
  abbrev fronted : BufferPoolState S → ℕ → Frame → BufferPoolState S
  fronted s i f = record s { frames = set s.frames i (record f { prev = none; next = s.mru_head }) }

  link_head-run :
      (s s2 : BufferPoolState S) (i : ℕ) (f : Frame)
      → get_elem? s.frames i ≡ some f
      → set_prev s.mru_head (some i) (fronted s i f) ≡ (s2, ok tt)
      → link_head i s ≡ (record s2 { mru_head = some i }, ok tt)
  unfolding link_head change_frame
  link_head-run s s2 i f found run = rw (found, run) refl

  -- A frame outside of the list, after it was put in front.
  loose_behind :
      (s : BufferPoolState S) (ids : List ℕ) (i : ℕ) (frames : List Frame)
      → Linked s ids
      → ((k : ℕ) → (Listed k (i ∷ ids) → ⊥) → get_elem? frames k ≡ get_elem? s.frames k)
      → (k : ℕ) (g : Frame) → get_elem? frames k ≡ some g
      → (Listed k (i ∷ ids) → ⊥)
      → (g.prev ≡ none) × (g.next ≡ none)
  loose_behind s ids i frames l same k g e out =
      l.loose k g (sym (same k out) ∙ e) (λ h. out (inr h))

  -- A frame that is not in the list becomes its first one.
  pub link_head-Linked :
      (s : BufferPoolState S) (ids : List ℕ) (i : ℕ) (f : Frame)
      → Linked s ids
      → get_elem? s.frames i ≡ some f
      → (Listed i ids → ⊥)
      → (s' : BufferPoolState S) × (link_head i s ≡ (s', ok tt))
        × Linked s' (i ∷ ids)
        × SameBesides s s'
  unfolding set_prev Segment
  link_head-Linked s [] i f l found absent =
      let s1 = fronted s i f in
      (
        record s1 { lru_tail = some i; mru_head = some i },
        link_head-run s (record s1 { lru_tail = some i }) i f found
            (ap (λ o. set_prev o (some i) s1) l.head),
        record {
          head = refl;
          tail = refl;
          links = (_, set_here s.frames i f _ found, refl, l.head, tt);
          distinct = (tt, tt);
          loose =
              loose_behind s [] i s1.frames l
                (λ k out. get_elem?-set_ne s.frames _ (λ same. out (inl (sym same))));
        },
        record {
          files = refl;
          next_file_id = refl;
          page_table = refl;
          free_list = refl;
          frames = set-SamePayload s.frames i f _ found refl;
        },
      )
  link_head-Linked s (j ∷ js) i f l found absent =
      let s1 = fronted s i f in
      let apart : i ≢ j = λ same. absent (inl same) in
      let (g, found_g, linked) =
        relink_start s1.frames none (some i) j js none l.distinct
          (Segment-set s.frames none (j ∷ js) none i _ absent l.links) in
      let fs2 = set s1.frames j (record g { prev = some i }) in
      (
        record s1 { frames = fs2; mru_head = some i },
        link_head-run s (record s1 { frames = fs2 }) i f found
            (ap (λ o. set_prev o (some i) s1) l.head
              ∙ change_frame-run s1 j (λ f. record f { prev = some i }) g found_g),
        record {
          head = refl;
          tail = l.tail;
          links = (
            record f { prev = none; next = s.mru_head },
            get_elem?-set_ne s1.frames _ (λ same. apart (sym same)) ∙ set_here s.frames i f _ found,
            refl,
            l.head,
            linked,
          );
          distinct = (
            All-Listed (λ k. k ≢ i) (j ∷ js) (λ k h same. absent (Listed-as (j ∷ js) same h)),
            l.distinct,
          );
          loose = loose_behind s (j ∷ js) i fs2 l (λ k out.
              get_elem?-set_ne s1.frames _ (λ same. out (inr (inl (sym same))))
              ∙ get_elem?-set_ne s.frames _ (λ same. out (inl (sym same))));
        },
        record {
          files = refl;
          next_file_id = refl;
          page_table = refl;
          free_list = refl;
          frames =
              SamePayload-trans (set-SamePayload s.frames i f _ found refl)
                (set-SamePayload s1.frames j g _ found_g refl);
        },
      )

  pub unlink-without :
      (s : BufferPoolState S) (ids : List ℕ) (i : ℕ) (f : Frame)
      → Linked s ids
      → get_elem? s.frames i ≡ some f
      → (s' : BufferPoolState S) × (unlink i s ≡ (s', ok tt))
        × Linked s' (without i ids)
        × SameBesides s s'
        × (Listed i (without i ids) → ⊥)
  unlink-without s ids i f l found = elim (without-cases i ids) [
    | inl (absent, kept) ↦
        let (s', run, l', same) = unlink_loose s ids i f l found absent in
        (s', run, rw kept l', same, rw kept absent)
    | inr (pre, post, split, rest) ↦
        let l0 : Linked s (pre ++ (i ∷ post)) = rw (← split) l in
        let (s', run, l', same) = unlink_listed s pre i post l0 in
        (s', run, rw rest l', same, rw rest (Distinct-without pre i post l0.distinct).1)
  ]

  touch-run :
      (s s1 s2 : BufferPoolState S) (i : ℕ)
      → unlink i s ≡ (s1, ok tt)
      → link_head i s1 ≡ (s2, ok tt)
      → touch i s ≡ (s2, ok tt)
  unfolding touch
  touch-run s s1 s2 i out front = rw (out, front) refl

  -- Touching a frame makes it the first of the list, wherever it was; nothing but links changes.
  pub touch-Linked :
      (s : BufferPoolState S) (ids : List ℕ) (i : ℕ)
      → Linked s ids
      → i < length s.frames
      → (s' : BufferPoolState S) × (touch i s ≡ (s', ok tt))
        × Linked s' (i ∷ without i ids)
        × SameBesides s s'
  touch-Linked s ids i l inside =
      let (f, found) = get_elem?_of_lt s.frames i inside in
      let (s1, run1, l1, same1, absent) = unlink-without s ids i f l found in
      let (f1, found1, pay) = same1.frames.same i f found in
      let (s2, run2, l2, same2) = link_head-Linked s1 (without i ids) i f1 l1 found1 absent in
      (s2, touch-run s s1 s2 i run1 run2, l2, SameBesides-trans same1 same2)
