-- ===== src/Buffer/Frames/Victim.antt =====
-- The search of `acquire_frame` in storage/buffer for a frame to evict.
use mathlib.Core.List.{append_assoc, append-nil}
use rs_redbase.Prelude.{
  ℕ, zero, suc, ◌≤◌, ◌<◌, ◌≡◌, ◌≢◌, refl, sym, ◌∙◌, ap, ◌⊎◌, inl, inr, true, false, Option, none,
  some, List, [], ◌∷◌, ◌++◌, All, Bool-cases, ◌==◌, if◌then◌else◌, get_elem?, length, length-append,
  ok, arith,
}
use rs_redbase.Page.File.Store.{Listed, Distinct}
use rs_redbase.Buffer.{Frame, BufferPoolState}
use rs_redbase.Buffer.Frames.{look_at, find_unpinned}
use rs_redbase.Buffer.Frames.Links.{last_or, Segment, get_in, Segment-split}
use rs_redbase.Buffer.Frames.Linked.{Linked}
use rs_redbase.Buffer.Frames.Numbers.{
  Distinct-without, Listed-as, Listed-insert, last_or-append, without-cases,
}

-- Different numbers below a bound are no more than the bound.
length-Distinct :
    (n : ℕ) (ids : List ℕ) → Distinct ids → ((i : ℕ) → Listed i ids → i < n) → length ids ≤ n
length-Distinct zero [] d below = omega arith
length-Distinct zero (i ∷ ids) d below = let h = below i (inl refl) in absurd (omega arith)
length-Distinct (suc n) ids d below = elim (without-cases n ids) [
  | inl (absent, kept) ↦
      let h = length-Distinct n ids d (λ i l.
        let apart : i ≢ n = λ same. absent (Listed-as ids same l) in
        omega (arith, below i l, apart)) in
      omega arith
  | inr (pre, post, split, rest) ↦
      let d' : Distinct (pre ++ (n ∷ post)) = rw (← split) d in
      let (d2, absent) = Distinct-without pre n post d' in
      let h = length-Distinct n (pre ++ post) d2 (λ i l.
        let apart : i ≢ n = λ same. absent (Listed-as (pre ++ post) same l) in
        let in_ids : Listed i ids = rw split (Listed-insert i pre n post l) in
        omega (arith, below i in_ids, apart)) in
      omega (arith, ap length split, length-append pre (n ∷ post), length-append pre post)
]

-- A list is empty or has a last number.
snoc-cases : (is : List ℕ) → (is ≡ []) ⊎ ((init : List ℕ) × (k : ℕ) × (is ≡ init ++ (k ∷ [])))
snoc-cases [] = inl refl
snoc-cases (i ∷ is) = elim (snoc-cases is) [
  | inl empty ↦ inr ([], i, ap (λ r. i ∷ r) empty)
  | inr (init, k, e) ↦ inr (i ∷ init, k, ap (λ r. i ∷ r) e)
]

-- The frames of the list exist.
pub Segment-inside :
    (frames : List Frame) (prev : Option ℕ) (ids : List ℕ) (next : Option ℕ)
    → Segment frames prev ids next
    → (i : ℕ) → Listed i ids
    → i < length frames
unfolding Segment
Segment-inside frames prev [] next u i l = absurd l
Segment-inside frames prev (j ∷ js) next (f, e, before, after, rest) i (inl same) =
    rw same (get_in frames j f e)
Segment-inside frames prev (j ∷ js) next (f, e, before, after, rest) i (inr later) =
    Segment-inside frames (some j) js next rest i later

module _ {S : Type 0} where
  abbrev pub IsPinned : BufferPoolState S → ℕ → Type 0
  IsPinned s i = (f : Frame) × (get_elem? s.frames i ≡ some f) × ((f.pin_count == 0) ≡ false)

  abbrev pub IsUnpinned : BufferPoolState S → ℕ → Type 0
  IsUnpinned s i = (f : Frame) × (get_elem? s.frames i ≡ some f) × ((f.pin_count == 0) ≡ true)

  -- The least recently used frame that is not pinned, if there is one.
  abbrev pub IsVictim : BufferPoolState S → List ℕ → Option ℕ → Type 0
  IsVictim s ids none = All (IsPinned s) ids
  IsVictim s ids (some i) =
      (newer older : List ℕ) × (ids ≡ newer ++ (i ∷ older))
      × IsUnpinned s i
      × All (IsPinned s) older

  find_unpinned-step :
      (rounds : ℕ) (s : BufferPoolState S) (k : ℕ) (f : Frame)
      → get_elem? s.frames k ≡ some f
      → find_unpinned (suc rounds) s (some k)
        ≡ (if f.pin_count == 0 then ok (some k) else find_unpinned rounds s f.prev)
  unfolding find_unpinned
  find_unpinned-step rounds s k f found = ap (look_at k (find_unpinned rounds s)) found

  find_unpinned-end : (rounds : ℕ) (s : BufferPoolState S) → find_unpinned rounds s none ≡ ok none
  unfolding find_unpinned
  find_unpinned-end zero s = refl
  find_unpinned-end (suc rounds) s = refl

  search_end :
      (s : BufferPoolState S) (ids : List ℕ) (rounds : ℕ) (is done : List ℕ)
      → ids ≡ is ++ done
      → is ≡ []
      → All (IsPinned s) done
      → (o : Option ℕ) × (find_unpinned rounds s (last_or none is) ≡ ok o) × IsVictim s ids o
  search_end s ids rounds is done e empty pinned =
      let all : ids ≡ done = e ∙ ap (λ l. l ++ done) empty in
      (
        none,
        ap (λ l. find_unpinned rounds s (last_or none l)) empty ∙ find_unpinned-end rounds s,
        rw all pinned,
      )

  -- The frames `done` were looked at, and the frames `is` are left.
  search :
      (s : BufferPoolState S) (ids : List ℕ)
      → Segment s.frames none ids none
      → (rounds : ℕ) (is done : List ℕ) → length is ≤ rounds
      → ids ≡ is ++ done
      → All (IsPinned s) done
      → (o : Option ℕ) × (find_unpinned rounds s (last_or none is) ≡ ok o) × IsVictim s ids o
  unfolding Segment
  search s ids links zero is done few e pinned = elim (snoc-cases is) [
    | inl empty ↦ search_end s ids zero is done e empty pinned
    | inr (init, k, last) ↦ absurd (omega (arith, ap length last, length-append init (k ∷ [])))
  ]
  search s ids links (suc rounds) is done few e pinned = elim (snoc-cases is) [
    | inl empty ↦ search_end s ids (suc rounds) is done e empty pinned
    | inr (init, k, last) ↦
        let e' : ids ≡ init ++ (k ∷ done) =
          e ∙ ap (λ l. l ++ done) last ∙ append_assoc init (k ∷ []) done in
        let links' : Segment s.frames none (init ++ (k ∷ done)) none = rw (← e') links in
        let (left, (f, found, before, after, rest)) =
          Segment-split s.frames none init (k ∷ done) none links' in
        let fewer : length init ≤ rounds =
          omega (arith, ap length last, length-append init (k ∷ [])) in
        let step =
          ap (find_unpinned (suc rounds) s)
            (ap (last_or none) last ∙ last_or-append none init (k ∷ []))
          ∙ find_unpinned-step rounds s k f found in
        elim (Bool-cases (f.pin_count == 0)) [
          | inl free ↦ (
            some k,
            step ∙ ap (λ b. if b then ok (some k) else find_unpinned rounds s f.prev) free,
            (init, done, e', (f, found, free), pinned),
          )
          | inr busy ↦
              let (o, run, victim) =
                search s ids links rounds init (k ∷ done) fewer e' ((f, found, busy), pinned) in
              (
                o,
                step
                    ∙ ap (λ b. if b then ok (some k) else find_unpinned rounds s f.prev) busy
                    ∙ ap (find_unpinned rounds s) before
                    ∙ run,
                victim,
              )
        ]
  ]

  -- From the end of the list, the search looks at no more frames than there are, and finds the
  -- least recently used frame that is not pinned, or none when all of the list are pinned.
  pub find_unpinned-IsVictim :
      (s : BufferPoolState S) (ids : List ℕ)
      → Linked s ids
      → (o : Option ℕ) × (find_unpinned (length s.frames) s s.lru_tail ≡ ok o) × IsVictim s ids o
  find_unpinned-IsVictim s ids l =
      let few =
        length-Distinct (length s.frames) ids l.distinct
          (Segment-inside s.frames none ids none l.links) in
      let (o, run, victim) =
        search s ids l.links (length s.frames) ids [] few (sym (append-nil ids)) tt in
      (o, ap (find_unpinned (length s.frames) s) l.tail ∙ run, victim)
