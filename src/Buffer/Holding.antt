-- ===== src/Buffer/Holding.antt =====
-- Calls of storage/buffer on a frame that may be pinned: its holders keep the page and the data.
use rs_redbase.Prelude.{
  ℕ, suc, ◌≤◌, ◌≡◌, refl, sym, ◌∙◌, ap, inl, inr, true, some, List, get_elem?, get_elem?_of_lt, set,
  Result, ok, err, arith,
}
use rs_redbase.Prelude.Call.{resume, ◌>>=◌, pure, reads}
use rs_redbase.Storage.{BufferPoolError}
use rs_redbase.Page.File.Represented.{same_or_other}
use rs_redbase.Buffer.{Frame, BufferPoolState, PoolCall}
use rs_redbase.Buffer.Frames.{frame_at, change_frame, touch, pin_frame}
use rs_redbase.Buffer.Frames.Links.{set_here, get_unique, change_frame-run}
use rs_redbase.Buffer.Frames.Touched.{touch-Linked}
use rs_redbase.Buffer.Pins.{PinsHold, PinsHold-payload, PinsHold-refl, PinsHold-trans}
use rs_redbase.Buffer.Steps.{IsPool, IsBusy, IsBusy-after}
use rs_redbase.Buffer.FrameSteps.{change_frame-IsStep, touch-IsStep}

-- The same page and data, and as many pins at least.
abbrev pub Held : Frame → Frame → Type 0
Held f f' = (f'.key ≡ f.key) × (f'.bytes ≡ f.bytes) × (f.pin_count ≤ f'.pin_count)

module _ {S : Type 0} where
  -- The call ended so, and frame `i` is in use, with its page.
  abbrev pub KeepsBusy :
      {A : Type 0} → ℕ → BufferPoolState S → BufferPoolState S × Result BufferPoolError A → Type 0
  KeepsBusy {A} i s outcome =
      (s' : BufferPoolState S) × (r : Result BufferPoolError A) × (ids : List ℕ) × (outcome
        ≡ (s', r))
      × IsPool s' ids
      × PinsHold s s'
      × IsBusy s' i

  -- A change that takes nothing from the holder of the frame.
  pub change-KeepsBusy :
      (s : BufferPoolState S) (ids : List ℕ) (i : ℕ) (change : Frame → Frame)
      → IsPool s ids
      → IsBusy s i
      → ((f : Frame) → ((change f).prev ≡ f.prev) × ((change f).next ≡ f.next))
      → ((f : Frame) → Held f (change f))
      → KeepsBusy i s (change_frame i change s)
  unfolding PinsHold
  change-KeepsBusy s ids i change pool busy links held =
      let (f, e) = get_elem?_of_lt s.frames i busy.0 in
      let (s', r, ids', run, pool', o) =
        change_frame-IsStep i change (λ f. let (p, n) = links f in (p, n, (held f).0)) s ids pool
          busy in
      let same = ap (λ p. p.0) (sym (change_frame-run s i change f e) ∙ run) in
      (
        s',
        r,
        ids',
        run,
        pool',
        λ k g found pinned. elim (same_or_other k i) [
          | inl here ↦
              let u = get_unique s.frames k i g f found e here in
              (
                change g,
                ap (λ t. get_elem? t.frames k) (sym same)
                    ∙ ap (get_elem? (set s.frames i (change f))) here
                    ∙ set_here s.frames i f (change f) e
                    ∙ ap (λ g. some (change g)) (sym u),
                (held g).0,
                (held g).1,
                (held g).2,
              )
          | inr other ↦
              let (g', found', p) = o.same k g other found in
              (g', found', ap (λ q. q.0) p, ap (λ q. q.1) p, omega (arith, ap (λ q. q.3) p))
        ],
        IsBusy-after i s s' o busy,
      )

  PinsHold-as :
      (s : BufferPoolState S) {a b : BufferPoolState S} → a ≡ b → PinsHold s a → PinsHold s b
  PinsHold-as s e h = rw (← e) h

  pub touch-KeepsBusy :
      (s : BufferPoolState S) (ids : List ℕ) (i : ℕ)
      → IsPool s ids
      → IsBusy s i
      → KeepsBusy i s (touch i s)
  touch-KeepsBusy s ids i pool busy =
      let (s1, run1, l, same) = touch-Linked s ids i pool.linked busy.0 in
      let (s', r, ids', run, pool', o) = touch-IsStep i s ids pool busy in
      (
        s',
        r,
        ids',
        run,
        pool',
        PinsHold-as s (ap (λ p. p.0) (sym run1 ∙ run))
            (PinsHold-payload s s1 (λ k f e pinned. same.frames.same k f e)),
        IsBusy-after i s s' o busy,
      )

  -- From every state in which frame `i` is in use.
  abbrev pub IsHolding : {A : Type 0} → ℕ → PoolCall S A → Type 0
  IsHolding i m =
      (s : BufferPoolState S) (ids : List ℕ) → IsPool s ids → IsBusy s i → KeepsBusy i s (m s)

  after :
      {A B : Type 0} (i : ℕ) (m : PoolCall S A) (f : A → PoolCall S B) (s s1 : BufferPoolState S)
      (ids : List ℕ) (r : Result BufferPoolError A)
      → m s ≡ (s1, r)
      → IsPool s1 ids
      → PinsHold s s1
      → IsBusy s1 i
      → ((a : A) → KeepsBusy i s1 (f a s1))
      → KeepsBusy i s ((m >>= f) s)
  after i m f s s1 ids (ok a) run pool hold busy rest =
      let (s2, r2, ids2, run2, pool2, hold2, busy2) = rest a in
      (
        s2,
        r2,
        ids2,
        ap (λ p. resume f p.0 p.1) run ∙ run2,
        pool2,
        PinsHold-trans s s1 s2 hold hold2,
        busy2,
      )
  after i m f s s1 ids (err e) run pool hold busy rest =
      (s1, err e, ids, ap (λ p. resume f p.0 p.1) run, pool, hold, busy)
  after i m f s s1 ids Result.panicked run pool hold busy rest =
      (s1, Result.panicked, ids, ap (λ p. resume f p.0 p.1) run, pool, hold, busy)

  pub bind-IsHolding :
      {A B : Type 0} (i : ℕ) (m : PoolCall S A) (f : A → PoolCall S B)
      → IsHolding i m
      → ((a : A) → IsHolding i (f a))
      → IsHolding i (m >>= f)
  bind-IsHolding i m f first rest s ids pool busy =
      let (s1, r, ids1, run, pool1, hold, busy1) = first s ids pool busy in
      after i m f s s1 ids1 r run pool1 hold busy1 (λ a. rest a s1 ids1 pool1 busy1)

  pub pure-IsHolding : {A : Type 0} (i : ℕ) (a : A) → IsHolding {A = A} i (pure a)
  pure-IsHolding i a s ids pool busy = (s, ok a, ids, refl, pool, PinsHold-refl s, busy)

  reads-IsHolding :
      {A : Type 0} (i : ℕ) (g : BufferPoolState S → Result BufferPoolError A)
      → IsHolding i (reads g)
  reads-IsHolding i g s ids pool busy = (s, g s, ids, refl, pool, PinsHold-refl s, busy)

  -- Pinning a frame, as a second guard of its page does, takes nothing from the first.
  pub pin_frame-IsHolding : (i : ℕ) → IsHolding {A = Unit {0}} i (pin_frame i)
  unfolding pin_frame
  pin_frame-IsHolding i = bind-IsHolding i (frame_at i) _ (reads-IsHolding i _) (λ frame.
      bind-IsHolding i (reads _) _ (reads-IsHolding i _) (λ _.
        bind-IsHolding i (change_frame i (λ f. record f { pin_count = suc f.pin_count })) _
          (λ s ids pool busy.
            change-KeepsBusy s ids i (λ f. record f { pin_count = suc f.pin_count }) pool busy
              (λ f. (refl, refl)) (λ f. (refl, refl, omega arith)))
          (λ _ s ids pool busy. touch-KeepsBusy s ids i pool busy)))

  pub mark_dirty-IsHolding :
      (i : ℕ) → IsHolding {A = Unit {0}} i (change_frame i (λ f. record f { dirty = true }))
  mark_dirty-IsHolding i s ids pool busy =
      change-KeepsBusy s ids i (λ f. record f { dirty = true }) pool busy (λ f. (refl, refl))
        (λ f. (refl, refl, omega arith))
