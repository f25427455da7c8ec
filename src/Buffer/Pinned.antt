-- ===== src/Buffer/Pinned.antt =====
-- Frames of storage/buffer that hold a page and are pinned, after a hit and after an install.
use rs_redbase.Prelude.{
  ℕ, suc, ◌≡◌, ◌≢◌, refl, sym, ◌∙◌, ap, inl, inr, Bool, true, some, Option-cases, Bool-cases, leb,
  get_elem?, set, Result, ok, ok_injective,
}
use rs_redbase.Prelude.Call.{◌>>=◌, ◌>>◌, pure}
use rs_redbase.Prelude.Bytes.{Bytes}
use rs_redbase.Page.File.{FileCall}
use rs_redbase.Buffer.{BufferKey, Frame, BufferPoolState, PoolCall}
use rs_redbase.Buffer.Frames.{change_frame, touch, pin_frame}
use rs_redbase.Buffer.Frames.Links.{set_here, change_frame-run}
use rs_redbase.Buffer.Pool.{BufferGuard, run_on, on_file, is_present, install_frame}
use rs_redbase.Buffer.Steps.{Holds}
use rs_redbase.Buffer.Light.{chain_returned, Light, touch-IsLight}
use rs_redbase.Buffer.Recycled.{installed, install-run, install-refused}
use rs_redbase.Buffer.Written.{Idle}

module _ {S : Type 0} where
  -- Frame `i` holds the page of the key, and is pinned.
  abbrev pub IsPinned : BufferPoolState S → ℕ → BufferKey → Type 0
  IsPinned s i key =
      (f : Frame) × (get_elem? s.frames i ≡ some f) × (f.key ≡ some key) × (f.pin_count ≢ 0)

  -- The frame of the guard holds the guard's page, and is pinned.
  abbrev pub Guarded : BufferGuard → BufferPoolState S → Type 0
  Guarded g s = IsPinned s g.frame_id (record { file_id = g.file_id; page_id = g.page_id })

  IsPinned-kept :
      (i : ℕ) (key : BufferKey) (s s' : BufferPoolState S)
      → Light s s'
      → IsPinned s i key
      → IsPinned s' i key
  IsPinned-kept i key s s' l (f, e, holds, pinned) =
      let (f', e', p) = l.frames.same i f e in
      (f', e', ap (λ q. q.0) p ∙ holds, λ none_left. pinned (sym (ap (λ q. q.3) p) ∙ none_left))

  touched-IsPinned :
      (i : ℕ) (key : BufferKey) (s s' : BufferPoolState S)
      → touch i s ≡ (s', ok tt)
      → IsPinned s i key
      → IsPinned s' i key
  touched-IsPinned i key s s' run pinned =
      let l : Light s s' = rw (← ap (λ p. p.0) run) ((touch-IsLight i).leaves s) in
      IsPinned-kept i key s s' l pinned

  pub on_file-frames :
      {A : Type 0} (file_id : ℕ) (call : FileCall S A) (s : BufferPoolState S)
      → (on_file file_id call s).0.frames ≡ s.frames
  unfolding on_file
  on_file-frames file_id call s = elim (Option-cases (s.files file_id)) [
    | inl missing ↦ ap (λ o. (run_on file_id call o s).0.frames) missing
    | inr (file, e) ↦ ap (λ o. (run_on file_id call o s).0.frames) e
  ]

  install_frame-returned :
      (i : ℕ) (key : BufferKey) (bytes : Bytes) (dirty : Bool) (s s' : BufferPoolState S)
      (f : Frame)
      → get_elem? s.frames i ≡ some f
      → install_frame i key bytes dirty s ≡ (s', ok tt)
      → IsPinned s' i key
  install_frame-returned i key bytes dirty s s' f e ran =
      elim (Bool-cases (is_present (s.page_table key))) [
        | inr absent ↦
            touched-IsPinned i key (installed s i f e key bytes dirty) s'
              (sym (install-run s i f e key bytes dirty absent) ∙ ran)
              (_, set_here s.frames i f _ e, refl, λ zero. absurd cc)
        | inl present ↦ absurd (
            let k = ap (λ p. p.1) (sym (install-refused s i f e key bytes dirty present) ∙ ran) in
            cc)
      ]

  -- A hit.
  pub pin_frame-returned :
      (i : ℕ) (key : BufferKey) (s s' : BufferPoolState S)
      → Holds s i key
      → pin_frame i s ≡ (s', ok tt)
      → IsPinned s' i key
  unfolding pin_frame
  pin_frame-returned i key s s' (f, e, holds) ran = elim (Bool-cases (leb 4294967295 f.pin_count)) [
    | inl most ↦
        let lost : pin_frame i s ≡ (s, Result.panicked) = rw (e, most) refl in
        absurd (let k = ap (λ p. p.1) (sym lost ∙ ran) in cc)
    | inr fewer ↦
        let more : Frame → Frame = λ f. record f { pin_count = suc f.pin_count } in
        let s1 : BufferPoolState S = record s { frames = set s.frames i (more f) } in
        let run : pin_frame i s ≡ touch i s1 = rw (e, fewer, change_frame-run s i more f e) refl in
        touched-IsPinned i key s1 s' (sym run ∙ ran)
          (more f, set_here s.frames i f (more f) e, holds, λ zero. absurd cc)
  ]

  pub marked-IsPinned :
      (i : ℕ) (key : BufferKey) (s s' : BufferPoolState S)
      → IsPinned s i key
      → change_frame i (λ f. record f { dirty = true }) s ≡ (s', ok tt)
      → IsPinned s' i key
  marked-IsPinned i key s s' (f, e, holds, pinned) ran =
      let mark : Frame → Frame = λ f. record f { dirty = true } in
      let at : s'.frames ≡ set s.frames i (mark f) =
        ap (λ p. p.0.frames) (sym ran ∙ change_frame-run s i mark f e) in
      (mark f, ap (λ l. get_elem? l i) at ∙ set_here s.frames i f (mark f) e, holds, pinned)

  -- A file's answer, and the page installed in an idle frame.
  abbrev pub fill :
      {A B : Type 0}
      → ℕ
      → ℕ
      → FileCall S A
      → (A → BufferKey)
      → (A → Bytes)
      → Bool
      → (A → B)
      → PoolCall S B
  fill i file_id call key bytes dirty result =
      on_file file_id call >>= λ a. install_frame i (key a) (bytes a) dirty >> pure (result a)

  pub fill-returned :
      {A B : Type 0} (i file_id : ℕ) (call : FileCall S A) (key : A → BufferKey) (bytes : A → Bytes)
      (dirty : Bool) (result : A → B) (s s' : BufferPoolState S) (b : B)
      → Idle s i
      → fill i file_id call key bytes dirty result s ≡ (s', ok b)
      → (a : A) × (result a ≡ b) × IsPinned s' i (key a)
  fill-returned {A = A} {B = B} i file_id call key bytes dirty result s s' b (f, e, idle) ran =
      let rest : A → PoolCall S B =
        λ a. install_frame i (key a) (bytes a) dirty >> pure (result a) in
      let (a, s1, run1, ran1) = chain_returned (on_file file_id call) rest s s' b ran in
      let (u, s2, run2, ran2) =
        chain_returned (install_frame i (key a) (bytes a) dirty) (λ _. pure (result a)) s1 s' b
          ran1 in
      let frames : s1.frames ≡ s.frames =
        ap (λ p. p.0.frames) (sym run1) ∙ on_file-frames file_id call s in
      let pinned =
        install_frame-returned i (key a) (bytes a) dirty s1 s2 f
          (ap (λ l. get_elem? l i) frames ∙ e) run2 in
      (a, ok_injective (ap (λ p. p.1) ran2), rw (← ap (λ p. p.0) ran2) pinned)
