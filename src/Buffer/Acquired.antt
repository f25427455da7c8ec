-- ===== src/Buffer/Acquired.antt =====
-- `acquire_frame` of storage/buffer, and the operations that fetch a page into the frame.
use rs_redbase.Prelude.{
  ℕ, ◌≡◌, refl, sym, ◌∙◌, ap, inl, inr, Option, none, some, List, [], ◌∷◌, ◌⊎◌, ok_injective, ◌==◌,
  get_elem?, get_elem?_of_lt, length, Result, ok, err, arith,
}
use rs_redbase.Storage.{BufferPoolError, no_frame_available}
use rs_redbase.Page.Io.{PageIo}
use rs_redbase.Page.File.Store.{Listed, Distinct}
use rs_redbase.Buffer.{Frame, BufferPoolState}
use rs_redbase.Buffer.Frames.{find_unpinned, link_head}
use rs_redbase.Buffer.Frames.Links.{payload, get_unique, get_in}
use rs_redbase.Buffer.Frames.Linked.{Linked, SameBesides}
use rs_redbase.Buffer.Frames.Touched.{link_head-Linked}
use rs_redbase.Buffer.Frames.Victim.{IsVictim, find_unpinned-IsVictim}
use rs_redbase.Buffer.Pool.{take_victim, evict_unpinned, acquire_from, acquire_frame}
use rs_redbase.Buffer.FrameSteps.{IsIdle-same}
use rs_redbase.Buffer.Written.{Idle, Saved, take_victim-returned}
use rs_redbase.Buffer.Pins.{IsFree, SameOthers}
use rs_redbase.Buffer.Steps.{IsPool, IsBusy, IsBusy-after}
use rs_redbase.Buffer.Handled.{take_victim-IsStep}
use rs_redbase.Buffer.Frames.Numbers.{Distinct-head, Listed-in}

Distinct-in : {is js : List ℕ} → is ≡ js → Distinct is → Distinct js
Distinct-in e d = rw (← e) d

List-cases : (is : List ℕ) → (is ≡ []) ⊎ ((i : ℕ) × (rest : List ℕ) × (is ≡ i ∷ rest))
List-cases [] = inl refl
List-cases (i ∷ is) = inr (i, is, refl)

module _ {S : Type 0} where
  -- A free frame is put in front of the list.
  abbrev popped : BufferPoolState S → List ℕ → BufferPoolState S
  popped s rest = record s { free_list = rest }

  front-IsPool :
      (s s' : BufferPoolState S) (ids : List ℕ) (i : ℕ) (rest : List ℕ)
      → IsPool s ids
      → s.free_list ≡ i ∷ rest
      → Linked s' (i ∷ ids)
      → SameBesides (popped s rest) s'
      → IsPool s' (i ∷ ids)
  front-IsPool s s' ids i rest pool e l same =
      let wide = same.frames.wide in
      let free : (k : ℕ) → Listed k s'.free_list → Listed k rest =
        λ k h. Listed-in k same.free_list h in
      let old : (k : ℕ) → Listed k s'.free_list → Listed k s.free_list =
        λ k h. Listed-in k (sym e) (inr (free k h)) in
      let distinct = Distinct-in e pool.free_distinct in
      record {
        linked = l;
        free_inside = λ k h. omega (arith, wide, pool.free_inside k (old k h));
        free_distinct = Distinct-in (sym same.free_list) distinct.1;
        apart = λ k h listed. elim listed [
          | inl here ↦ Distinct-head i rest distinct k (free k h) here
          | inr later ↦ pool.apart k (old k h) later
        ];
        free_idle = λ k g h found.
            let (f, e') = get_elem?_of_lt s.frames k (pool.free_inside k (old k h)) in
            let (f', found', p) = same.frames.same k f e' in
            IsIdle-same f g (ap payload (get_unique s'.frames k k g f' found found' refl) ∙ p)
              (pool.free_idle k f (old k h) e');
        table = λ key k h.
            let ((a, b), (f, e', holds)) =
              pool.table key k (sym (ap (λ t. t key) same.page_table) ∙ h) in
            let (f', found', p) = same.frames.same k f e' in
            ((omega (arith, wide, a), λ l. b (old k l)), (f', found', ap (λ q. q.0) p ∙ holds));
      }

  popped-Linked :
      (s : BufferPoolState S) (ids rest : List ℕ) → Linked s ids → Linked (popped s rest) ids
  popped-Linked s ids rest l = record {
    head = l.head;
    tail = l.tail;
    links = l.links;
    distinct = l.distinct;
    loose = l.loose;
  }

module _ (Io : PageIo) where
  -- However the search for a frame ended: only frame `i` changed, which was not pinned, and if a frame
  -- was returned, it is this one, in use, without a page, clean and unpinned, and what it had to write is
  -- in its page's file.
  abbrev pub Acquires :
      BufferPoolState Io.State → BufferPoolState Io.State × Result BufferPoolError ℕ → Type 0
  Acquires s outcome =
      (s' : BufferPoolState Io.State) × (r : Result BufferPoolError ℕ) × (ids : List ℕ) × (i : ℕ)
      × (outcome ≡ (s', r))
      × IsPool s' ids
      × IsFree s i
      × SameOthers i s s'
      × ((j : ℕ)
          → r ≡ ok j
          → (j ≡ i)
            × IsBusy s' i
            × Idle s' i
            × (f : Frame) × (get_elem? s.frames i ≡ some f)
            × Saved Io f.dirty f s s')

  front-run :
      (s s' : BufferPoolState Io.State) (i : ℕ) (rest : List ℕ)
      → s.free_list ≡ i ∷ rest
      → link_head i (popped s rest) ≡ (s', ok tt)
      → acquire_frame Io s ≡ (s', ok i)
  unfolding acquire_frame
  front-run s s' i rest e run = ap (λ l. acquire_from Io l s) e ∙ (rw run refl)

  evict-run :
      (s : BufferPoolState Io.State) (o : Option ℕ)
      → s.free_list ≡ []
      → find_unpinned (length s.frames) s s.lru_tail ≡ ok o
      → acquire_frame Io s ≡ take_victim Io o s
  unfolding acquire_frame evict_unpinned
  evict-run s o e run = ap (λ l. acquire_from Io l s) e ∙ (rw run refl)

  evicted :
      (s : BufferPoolState Io.State) (ids : List ℕ) (o : Option ℕ)
      → IsPool s ids
      → s.free_list ≡ []
      → IsVictim s ids o
      → Acquires s (take_victim Io o s)
  evicted s ids none pool empty all = (
    s,
    err no_frame_available,
    ids,
    length s.frames,
    refl,
    pool,
    λ f e. let h = get_in s.frames (length s.frames) f e in absurd (omega arith),
    λ k f o e. (f, e, refl),
    λ j e. absurd cc,
  )
  evicted s ids (some i) pool empty (newer, older, split, (f, e, free), pinned) =
      let busy : IsBusy s i = (get_in s.frames i f e, λ h. Listed-in i empty h) in
      let (s', r, ids', run, pool', o) = take_victim-IsStep Io i s ids pool busy in
      (
        s',
        r,
        ids',
        i,
        run,
        pool',
        λ g found. ap (λ g. g.pin_count == 0) (get_unique s.frames i i g f found e refl) ∙ free,
        o.same,
        λ j ended.
            let (here, idle, saved) =
              take_victim-returned Io i j f s s' e (run ∙ ap (λ r. (s', r)) ended) in
            (here, IsBusy-after i s s' o busy, idle, f, e, saved),
      )

  pub acquire_frame-Acquires :
      (s : BufferPoolState Io.State) (ids : List ℕ) → IsPool s ids → Acquires s (acquire_frame Io s)
  acquire_frame-Acquires s ids pool = elim (List-cases s.free_list) [
    | inl empty ↦
        let (o, run, victim) = find_unpinned-IsVictim s ids pool.linked in
        let (s', r, ids', i, run', pool', free, same, yields) = evicted s ids o pool empty victim in
        (s', r, ids', i, evict-run s o empty run ∙ run', pool', free, same, yields)
    | inr (i, rest, e) ↦
        let listed : Listed i s.free_list = Listed-in i (sym e) (inl refl) in
        let inside = pool.free_inside i listed in
        let (f, found) = get_elem?_of_lt s.frames i inside in
        let (s', run, l, same) =
          link_head-Linked (popped s rest) ids i f (popped-Linked s ids rest pool.linked) found
            (pool.apart i listed) in
        let distinct = Distinct-in e pool.free_distinct in
        (
          s',
          ok i,
          i ∷ ids,
          i,
          front-run s s' i rest e run,
          front-IsPool s s' ids i rest pool e l same,
          λ g found. ap (λ n. n == 0) (pool.free_idle i g listed found).2,
          λ k f other found. same.frames.same k f found,
          λ j ended. (
            sym (ok_injective ended),
            (
              omega (arith, same.frames.wide, inside),
              λ h. Distinct-head i rest distinct i (Listed-in i same.free_list h) refl,
            ),
            (let (f', found', p) = same.frames.same i f found in
                (f', found', IsIdle-same f f' p (pool.free_idle i f listed found))),
            f,
            found,
            rw (pool.free_idle i f listed found).1 same.files,
          ),
        )
  ]
