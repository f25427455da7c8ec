-- ===== src/Buffer/Guards.antt =====
-- What the holder of a guard of storage/buffer does with it.
use rs_redbase.Prelude.{
  ℕ, suc, ◌-◌, ◌≡◌, refl, ◌∙◌, ap, inl, inr, false, some, List, ◌∷◌, Bool-cases, ◌==◌,
  if◌then◌else◌, get_elem?, set, ok, arith,
}
use rs_redbase.Prelude.Call.{pure}
use rs_redbase.Prelude.Bytes.{Bytes}
use rs_redbase.Buffer.{Frame, BufferPoolState}
use rs_redbase.Buffer.Frames.{touch, unpin_frame}
use rs_redbase.Buffer.Frames.Links.{payload, set_here, change_frame-run}
use rs_redbase.Buffer.Frames.Numbers.{without}
use rs_redbase.Buffer.Pool.{BufferGuard, read_guard, write_guard, drop_guard}
use rs_redbase.Buffer.Steps.{IsPool, IsBusy, IsBusy-after, Others, Others-trans}
use rs_redbase.Buffer.FrameSteps.{changed-IsPool, touched-IsPool}

module _ {S : Type 0} (g : BufferGuard) (s : BufferPoolState S) (ids : List ℕ) (f : Frame)
    (pool : IsPool s ids) (busy : IsBusy s g.frame_id)
    (e : get_elem? s.frames g.frame_id ≡ some f) where
  -- The pool with another frame in the guard's place.
  abbrev replaced : Frame → BufferPoolState S
  replaced f' = record s { frames = set s.frames g.frame_id f' }

  -- What dropping a guard leaves: one pin less in its frame, which holds the page and the data that it
  -- held; a frame without a pin becomes the most recently used.
  abbrev pub Dropped : ℕ → BufferPoolState S → Type 0
  Dropped pins s' =
      IsPool s' (if pins == 0 then g.frame_id ∷ without g.frame_id ids else ids)
      × Others g.frame_id s s'
      × (f' : Frame) × (get_elem? s'.frames g.frame_id ≡ some f')
      × (payload f' ≡ (f.key, f.bytes, f.dirty, pins))

  drop_guard-Dropped :
      (pins : ℕ)
      → f.pin_count ≡ suc pins
      → (s' : BufferPoolState S) × (drop_guard g s ≡ (s', ok tt)) × Dropped pins s'
  unfolding drop_guard unpin_frame
  drop_guard-Dropped pins pinned =
      let less : Frame → Frame = λ f. record f { pin_count = f.pin_count - 1 } in
      let f1 : Frame = less f in
      let s1 : BufferPoolState S = replaced f1 in
      let (pool1, o1) =
        changed-IsPool s ids g.frame_id f less (λ f. (refl, refl, refl)) e pool busy in
      let here = set_here s.frames g.frame_id f f1 e in
      let some_pins : f.pin_count == 0 ≡ false = ground arith in
      let left : f.pin_count - 1 ≡ pins = omega (arith, pinned) in
      let run : drop_guard g s ≡ (if pins == 0 then touch g.frame_id else pure tt) s1 =
        rw (e, some_pins, change_frame-run s g.frame_id less f e, here, left) refl in
      let same : payload f1 ≡ (f.key, f.bytes, f.dirty, pins) =
        ap (λ n. (f.key, f.bytes, f.dirty, n)) left in
      elim (Bool-cases (pins == 0)) [
        | inl none_left ↦
            let (s', run', pool', o', light) =
              touched-IsPool s1 ids g.frame_id pool1 (IsBusy-after g.frame_id s s1 o1 busy) in
            let (f', found, p) = light.frames.same g.frame_id f1 here in
            (
              s',
              run ∙ ap (λ b. (if b then touch g.frame_id else pure tt) s1) none_left ∙ run',
              rw none_left (pool', Others-trans g.frame_id o1 o', f', found, p ∙ same),
            )
        | inr more ↦ (
          s1,
          run ∙ ap (λ b. (if b then touch g.frame_id else pure tt) s1) more,
          rw more (pool1, o1, f1, here, same),
        )
      ]

  -- With a guard of a pinned frame that is in use, in a well-formed pool: reading returns the frame's data
  -- and changes nothing; writing puts the data into the frame, changes nothing else and keeps the pool
  -- well formed; and dropping the guard takes one pin from the frame, keeps the page and the data, every
  -- other frame and the pool's form, and makes a frame without a pin the most recently used.
  pub guard-Ends :
      (bytes : Bytes) (pins : ℕ)
      → f.pin_count ≡ suc pins
      → (read_guard g s ≡ (s, ok f.bytes))
        × ((write_guard g bytes s ≡ (replaced (record f { bytes = bytes }), ok tt))
            × IsPool (replaced (record f { bytes = bytes })) ids)
        × ((s' : BufferPoolState S) × (drop_guard g s ≡ (s', ok tt)) × Dropped pins s')
  unfolding read_guard write_guard
  guard-Ends bytes pins pinned = (
    rw e refl,
    (
      change_frame-run s g.frame_id (λ f. record f { bytes = bytes }) f e,
      (changed-IsPool s ids g.frame_id f (λ f. record f { bytes = bytes }) (λ f. (refl, refl, refl))
          e pool busy).0,
    ),
    drop_guard-Dropped pins pinned,
  )
