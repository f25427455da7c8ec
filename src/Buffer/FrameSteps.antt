-- ===== src/Buffer/FrameSteps.antt =====
-- Changes of one frame, `unlink` and `touch` of storage/buffer as steps of the pool.
use rs_redbase.Prelude.{
  ℕ, ◌≡◌, ◌≢◌, ◌⊎◌, refl, sym, ◌∙◌, ap, inl, inr, Option, none, some, List, [], ◌∷◌, get_elem?,
  get_elem?-set_ne, get_elem?_of_lt, set, length-set, ok, arith,
}
use rs_redbase.Page.File.Store.{Listed}
use rs_redbase.Page.File.Represented.{same_or_other}
use rs_redbase.Buffer.{BufferKey, Frame, BufferPoolState}
use rs_redbase.Buffer.Frames.{change_frame, unlink, touch}
use rs_redbase.Buffer.Frames.Links.{Segment, payload, set_here, get_unique, change_frame-run}
use rs_redbase.Buffer.Frames.Linked.{Linked, SameBesides}
use rs_redbase.Buffer.Frames.Touched.{touch-Linked, unlink-without}
use rs_redbase.Buffer.Steps.{IsPool, IsBusy, IsIdle, Others, IsStep}
use rs_redbase.Buffer.Frames.Numbers.{Listed-in, Listed-without, without}

-- A frame changed, but not its links.
Segment-relabel :
    (frames : List Frame) (prev : Option ℕ) (ids : List ℕ) (next : Option ℕ) (i : ℕ) (f f' : Frame)
    → get_elem? frames i ≡ some f
    → f'.prev ≡ f.prev
    → f'.next ≡ f.next
    → Segment frames prev ids next
    → Segment (set frames i f') prev ids next
unfolding Segment
Segment-relabel frames prev [] next i f f' e p n u = u
Segment-relabel frames prev (k ∷ ks) next i f f' e p n (g, found, before, after, rest) =
    let rest' = Segment-relabel frames (some k) ks next i f f' e p n rest in
    elim (same_or_other k i) [
      | inl same ↦
          let u = get_unique frames k i g f found e same in
          (
            f',
            ap (get_elem? (set frames i f')) same ∙ set_here frames i f f' e,
            p ∙ ap (λ g. g.prev) (sym u) ∙ before,
            n ∙ ap (λ g. g.next) (sym u) ∙ after,
            rest',
          )
      | inr other ↦
          (g, get_elem?-set_ne frames f' (λ h. other (sym h)) ∙ found, before, after, rest')
    ]

pub IsIdle-same : (f g : Frame) → payload g ≡ payload f → IsIdle f → IsIdle g
IsIdle-same f g p (key, dirty, pins) =
    (ap (λ q. q.0) p ∙ key, ap (λ q. q.2) p ∙ dirty, ap (λ q. q.3) p ∙ pins)

-- A change of fields other than the links and the key.
abbrev pub Lasting : (Frame → Frame) → Type 0
Lasting change =
    (f : Frame) → ((change f).prev ≡ f.prev) × ((change f).next ≡ f.next) × ((change f).key ≡ f.key)

module _ {S : Type 0} where
  relabel-Linked :
      (s : BufferPoolState S) (ids : List ℕ) (i : ℕ) (f f' : Frame)
      → get_elem? s.frames i ≡ some f
      → f'.prev ≡ f.prev
      → f'.next ≡ f.next
      → Linked s ids
      → Linked (record s { frames = set s.frames i f' }) ids
  relabel-Linked s ids i f f' e p n l = record {
    head = l.head;
    tail = l.tail;
    links = Segment-relabel s.frames none ids none i f f' e p n l.links;
    distinct = l.distinct;
    loose = λ k g found out. elim (same_or_other k i) [
      | inl same ↦
          let u = get_unique (set s.frames i f') k i g f' found (set_here s.frames i f f' e) same in
          let (a, b) = l.loose i f e (λ h. out (rw same h)) in
          (ap (λ g. g.prev) u ∙ p ∙ a, ap (λ g. g.next) u ∙ n ∙ b)
      | inr other ↦
          l.loose k g (sym (get_elem?-set_ne s.frames f' (λ h. other (sym h))) ∙ found) out
    ];
  }

  -- A frame changed, but not its links, and with it the page table: of the changed frame it may name the
  -- new key only, and of the others it names what it named.
  pub rekeyed :
      (s : BufferPoolState S) (ids : List ℕ) (i : ℕ) (f f' : Frame) (table : BufferKey → Option ℕ)
      → get_elem? s.frames i ≡ some f
      → f'.prev ≡ f.prev
      → f'.next ≡ f.next
      → ((key : BufferKey) (k : ℕ)
          → table key ≡ some k
          → ((k ≡ i) × (f'.key ≡ some key)) ⊎ ((k ≢ i) × (s.page_table key ≡ some k)))
      → IsPool s ids
      → IsBusy s i
      → IsPool (record s { page_table = table; frames = set s.frames i f' }) ids
        × Others i s (record s { page_table = table; frames = set s.frames i f' })
  rekeyed s ids i f f' table e p n named pool (inside, used) =
      let wide = length-set s.frames i f' in
      let l = relabel-Linked s ids i f f' e p n pool.linked in
      (
        record {
          linked = record {
            head = l.head;
            tail = l.tail;
            links = l.links;
            distinct = l.distinct;
            loose = l.loose;
          };
          free_inside = λ k l. omega (arith, wide, pool.free_inside k l);
          free_distinct = pool.free_distinct;
          apart = pool.apart;
          free_idle = λ k g l found.
              pool.free_idle k g l
                (sym (get_elem?-set_ne s.frames f' (λ h. used (rw h l))) ∙ found);
          table = λ key k h. elim (named key k h) [
            | inl (same, holds) ↦ (
              (omega (arith, wide, same, inside), λ l. used (rw (← same) l)),
              (f', ap (get_elem? (set s.frames i f')) same ∙ set_here s.frames i f f' e, holds),
            )
            | inr (other, kept) ↦
                let ((a, b), (g, found, holds)) = pool.table key k kept in
                (
                  (omega (arith, wide, a), b),
                  (g, get_elem?-set_ne s.frames f' (λ h. other (sym h)) ∙ found, holds),
                )
          ];
        },
        record {
          free = refl;
          wide = wide;
          same = λ k g other found.
              (g, get_elem?-set_ne s.frames f' (λ h. other (sym h)) ∙ found, refl);
        },
      )

  pub changed-IsPool :
      (s : BufferPoolState S) (ids : List ℕ) (i : ℕ) (f : Frame) (change : Frame → Frame)
      → Lasting change
      → get_elem? s.frames i ≡ some f
      → IsPool s ids
      → IsBusy s i
      → IsPool (record s { frames = set s.frames i (change f) }) ids
        × Others i s (record s { frames = set s.frames i (change f) })
  changed-IsPool s ids i f change lasting e pool busy =
      let (p, n, same_key) = lasting f in
      rekeyed s ids i f (change f) s.page_table e p n
        (λ key k h. elim (same_or_other k i) [
          | inl same ↦
              let (b, (g, found, holds)) = pool.table key k h in
              inl (
                same,
                same_key ∙ ap (λ g. g.key) (sym (get_unique s.frames k i g f found e same)) ∙ holds,
              )
          | inr other ↦ inr (other, h)
        ])
        pool busy

  pub change_frame-IsStep :
      (i : ℕ) (change : Frame → Frame) → Lasting change → IsStep {S = S} i (change_frame i change)
  change_frame-IsStep i change lasting s ids pool busy =
      let (f, e) = get_elem?_of_lt s.frames i busy.0 in
      let (pool', o) = changed-IsPool s ids i f change lasting e pool busy in
      (
        record s { frames = set s.frames i (change f) },
        ok tt,
        ids,
        change_frame-run s i change f e,
        pool',
        o,
      )

  -- Only links changed, and with them perhaps the place of frame `i`.
  relinked :
      (s s' : BufferPoolState S) (ids ids' : List ℕ) (i : ℕ)
      → IsPool s ids
      → Linked s' ids'
      → SameBesides s s'
      → ((k : ℕ) → Listed k s.free_list → Listed k ids' → ⊥)
      → IsPool s' ids' × Others i s s'
  relinked s s' ids ids' i pool l same apart =
      let wide = same.frames.wide in
      (
        record {
          linked = l;
          free_inside =
              λ k h. omega (arith, wide, pool.free_inside k (Listed-in k same.free_list h));
          free_distinct = rw same.free_list pool.free_distinct;
          apart = λ k h. apart k (Listed-in k same.free_list h);
          free_idle = λ k g h found.
              let l' = Listed-in k same.free_list h in
              let (f, e) = get_elem?_of_lt s.frames k (pool.free_inside k l') in
              let (f', e', p) = same.frames.same k f e in
              IsIdle-same f g (ap payload (get_unique s'.frames k k g f' found e' refl) ∙ p)
                (pool.free_idle k f l' e);
          table = λ key k h.
              let ((a, b), (f, e, holds)) =
                pool.table key k (sym (ap (λ t. t key) same.page_table) ∙ h) in
              let (f', e', p) = same.frames.same k f e in
              (
                (omega (arith, wide, a), λ l. b (Listed-in k same.free_list l)),
                (f', e', ap (λ q. q.0) p ∙ holds),
              );
        },
        record { free = same.free_list; wide = wide; same = λ k f other e. same.frames.same k f e },
      )

  -- Touching a frame puts it in front.
  pub touched-IsPool :
      (s : BufferPoolState S) (ids : List ℕ) (i : ℕ)
      → IsPool s ids
      → IsBusy s i
      → (s' : BufferPoolState S) × (touch i s ≡ (s', ok tt))
        × IsPool s' (i ∷ without i ids)
        × Others i s s'
        × SameBesides s s'
  touched-IsPool s ids i pool (inside, used) =
      let (s', run, l, same) = touch-Linked s ids i pool.linked inside in
      let (pool', o) = relinked s s' ids (i ∷ without i ids) i pool l same (λ k h listed.
        elim listed [
          | inl here ↦ used (rw (← here) h)
          | inr later ↦ pool.apart k h (Listed-without k i ids later)
        ]) in
      (s', run, pool', o, same)

  pub touch-IsStep : (i : ℕ) → IsStep {S = S} i (touch i)
  touch-IsStep i s ids pool busy =
      let (s', run, pool', o, same) = touched-IsPool s ids i pool busy in
      (s', ok tt, i ∷ without i ids, run, pool', o)

  pub unlink-IsStep : (i : ℕ) → IsStep {S = S} i (unlink i)
  unlink-IsStep i s ids pool (inside, used) =
      let (f, e) = get_elem?_of_lt s.frames i inside in
      let (s', run, l, same, absent) = unlink-without s ids i f pool.linked e in
      let (pool', o) =
        relinked s s' ids (without i ids) i pool l same
          (λ k h listed. pool.apart k h (Listed-without k i ids listed)) in
      (s', ok tt, without i ids, run, pool', o)
