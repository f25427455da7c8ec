-- ===== src/Buffer/Frames/Linked.antt =====
-- The list of the frames, from the most to the least recently used, under `unlink`, `link_head` and
-- `touch` of storage/buffer.
use rs_redbase.Prelude.{
  ℕ, ◌≡◌, refl, sym, ◌∙◌, ap, ap₂, inl, inr, none, some, List, ◌∷◌, ◌++◌, get_elem?,
  get_elem?-set_ne, set, ok,
}
use rs_redbase.Page.File.Store.{Listed, Distinct}
use rs_redbase.Page.File.Represented.{same_or_other}
use rs_redbase.Buffer.{Frame, BufferPoolState}
use rs_redbase.Buffer.Frames.{skip_forward, skip_back, unlink}
use rs_redbase.Buffer.Frames.Links.{
  first_or, last_or, Segment, SamePayload, SamePayload-trans, set_here, set-SamePayload, get_unique,
  Segment-same, Segment-set, Segment-append, Segment-split,
}
use rs_redbase.Buffer.Frames.Unlinked.{skip_forward-Segment, skip_back-Segment, unlink-run}
use rs_redbase.Buffer.Frames.Numbers.{
  Distinct-apart, Distinct-parts, Distinct-without, Listed-append, Listed-left, Listed-right,
}

module _ {S : Type 0} where
  -- The list of the pool is `ids`; a frame outside of it has no links.
  pub record Linked (s : BufferPoolState S) (ids : List ℕ) : Type 0 where
    pub head : s.mru_head ≡ first_or ids none
    pub tail : s.lru_tail ≡ last_or none ids
    pub links : Segment s.frames none ids none
    pub distinct : Distinct ids
    pub loose :
        (i : ℕ) (f : Frame)
        → get_elem? s.frames i ≡ some f
        → (Listed i ids → ⊥)
        → (f.prev ≡ none) × (f.next ≡ none)

  -- Only the links and the ends of the list differ.
  pub record SameBesides (s s' : BufferPoolState S) : Type 0 where
    pub files : s'.files ≡ s.files
    pub next_file_id : s'.next_file_id ≡ s.next_file_id
    pub page_table : s'.page_table ≡ s.page_table
    pub free_list : s'.free_list ≡ s.free_list
    pub frames : SamePayload s.frames s'.frames

  pub SameBesides-trans :
      {a b c : BufferPoolState S} → SameBesides a b → SameBesides b c → SameBesides a c
  SameBesides-trans p q = record {
    files = q.files ∙ p.files;
    next_file_id = q.next_file_id ∙ p.next_file_id;
    page_table = q.page_table ∙ p.page_table;
    free_list = q.free_list ∙ p.free_list;
    frames = SamePayload-trans p.frames q.frames;
  }

  -- The frames outside of the list, after the frame in the middle lost its links.
  loose_without :
      (s : BufferPoolState S) (pre : List ℕ) (i : ℕ) (post : List ℕ)
      → Linked s (pre ++ (i ∷ post))
      → (frames : List Frame) (f : Frame) → get_elem? frames i ≡ some f
      → ((k : ℕ) → (Listed k (pre ++ post) → ⊥) → get_elem? frames k ≡ get_elem? s.frames k)
      → (k : ℕ) (g : Frame)
      → get_elem? (set frames i (record f { prev = none; next = none })) k ≡ some g
      → (Listed k (pre ++ post) → ⊥)
      → (g.prev ≡ none) × (g.next ≡ none)
  loose_without s pre i post l frames f found same k g e out = elim (same_or_other k i) [
    | inl here ↦
        let u = get_unique _ k i g _ e (set_here frames i f _ found) here in
        (ap (λ g. g.prev) u, ap (λ g. g.next) u)
    | inr other ↦
        let old = sym (same k out) ∙ sym (get_elem?-set_ne frames _ (λ h. other (sym h))) ∙ e in
        l.loose k g old (λ h. elim (Listed-append k pre (i ∷ post) h) [
          | inl a ↦ out (Listed-left k pre post a)
          | inr (inl here) ↦ other here
          | inr (inr b) ↦ out (Listed-right k pre post b)
        ])
  ]

  -- The frame in the middle is taken out.
  pub unlink_listed :
      (s : BufferPoolState S) (pre : List ℕ) (i : ℕ) (post : List ℕ)
      → Linked s (pre ++ (i ∷ post))
      → (s' : BufferPoolState S) × (unlink i s ≡ (s', ok tt))
        × Linked s' (pre ++ post)
        × SameBesides s s'
  unfolding Segment
  unlink_listed s pre i post l =
      let (d, absent) = Distinct-without pre i post l.distinct in
      let (dpre, dpost) = Distinct-parts pre post d in
      let apart = Distinct-apart pre post d in
      let (left, (f, found, before, after, right)) =
        Segment-split s.frames none pre (i ∷ post) none l.links in
      let (fs1, head, run1, head1, left1, same1, pay1) =
        skip_forward-Segment s i pre post l.head dpre left in
      let right1 =
        Segment-same s.frames fs1 (some i) post none (λ k r. same1 k (λ l. apart k l r)) right in
      let s1 : BufferPoolState S = record s { frames = fs1; mru_head = head } in
      let (fs2, tail, run2, tail2, right2, same2, pay2) =
        skip_back-Segment s1 i pre post l.tail dpost right1 in
      let left2 =
        Segment-same fs1 fs2 none pre (first_or post none) (λ k l. same2 k (λ r. apart k l r))
          left1 in
      let out_left : Listed i pre → ⊥ = λ h. absent (Listed-left i pre post h) in
      let out_right : Listed i post → ⊥ = λ h. absent (Listed-right i pre post h) in
      let found2 = same2 i out_right ∙ same1 i out_left ∙ found in
      let fs3 = set fs2 i (record f { prev = none; next = none }) in
      (
        record s { frames = fs3; mru_head = head; lru_tail = tail },
        unlink-run s s1 (record s1 { frames = fs2; lru_tail = tail }) i f f found
            (ap₂ (λ a b. skip_forward i a b s) before after ∙ run1)
            (ap₂ (λ a b. skip_back i a b s1) before after ∙ run2) found2,
        record {
          head = head1;
          tail = tail2;
          links =
              Segment-append fs3 none pre post none
                (Segment-set fs2 none pre (first_or post none) i _ out_left left2)
                (Segment-set fs2 (last_or none pre) post none i _ out_right right2);
          distinct = d;
          loose = loose_without s pre i post l fs2 f found2 (λ k out.
              same2 k (λ h. out (Listed-right k pre post h))
              ∙ same1 k (λ h. out (Listed-left k pre post h)));
        },
        record {
          files = refl;
          next_file_id = refl;
          page_table = refl;
          free_list = refl;
          frames =
              SamePayload-trans pay1
                (SamePayload-trans pay2 (set-SamePayload fs2 i f _ found2 refl));
        },
      )
