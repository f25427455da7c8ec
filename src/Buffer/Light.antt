-- ===== src/Buffer/Light.antt =====
-- Calls of storage/buffer that change only links between the frames, and what they leave alone.
use rs_redbase.Prelude.{
  ℕ, ◌≡◌, refl, ◌∙◌, ap, inl, inr, Option, none, some, Option-cases, Bool-cases, get_elem?, Result,
  ok, err,
}
use rs_redbase.Prelude.Call.{Call, resume, ◌>>=◌, gets, modify}
use rs_redbase.Storage.{BufferPoolError}
use rs_redbase.Buffer.{Frame, BufferPoolState, PoolCall}
use rs_redbase.Buffer.Frames.{
  is_end, frame_at, change_frame, set_prev, link_head, skip_forward, skip_back, unlink, touch,
}
use rs_redbase.Buffer.Frames.Links.{
  payload, SamePayload, SamePayload-refl, SamePayload-trans, set-SamePayload, change_frame-run,
}

returned :
    {S E A B : Type 0} (m : Call S E A) (f : A → Call S E B) (s s' : S) (b : B) (s1 : S)
    (r : Result E A)
    → m s ≡ (s1, r)
    → resume f s1 r ≡ (s', ok b)
    → (a : A) × (s1 : S) × (m s ≡ (s1, ok a)) × (f a s1 ≡ (s', ok b))
returned m f s s' b s1 (ok a) run e = (a, s1, run, e)
returned m f s s' b s1 (err x) run e = absurd (let k = ap (λ p. p.1) e in cc)
returned m f s s' b s1 Result.panicked run e = absurd (let k = ap (λ p. p.1) e in cc)

-- Both steps of a chain that returned have returned.
pub chain_returned :
    {S E A B : Type 0} (m : Call S E A) (f : A → Call S E B) (s s' : S) (b : B)
    → (m >>= f) s ≡ (s', ok b)
    → (a : A) × (s1 : S) × (m s ≡ (s1, ok a)) × (f a s1 ≡ (s', ok b))
chain_returned m f s s' b e = returned m f s s' b (m s).0 (m s).1 refl e

module _ {S : Type 0} where
  pub record Light (s s' : BufferPoolState S) : Type 0 where
    pub files : s'.files ≡ s.files
    pub frames : SamePayload s.frames s'.frames

  Light-refl : (s : BufferPoolState S) → Light s s
  Light-refl s = record { files = refl; frames = SamePayload-refl s.frames }

  pub record IsLight {A : Type 0} (m : PoolCall S A) : Type 0 where
    pub leaves : (s : BufferPoolState S) → Light s (m s).0

  resume-Light :
      {A B : Type 0} (f : A → PoolCall S B) (s s1 : BufferPoolState S)
      (r : Result BufferPoolError A)
      → Light s s1
      → ((a : A) → IsLight (f a))
      → Light s (resume f s1 r).0
  resume-Light f s s1 (ok a) l rest = record {
    files = ((rest a).leaves s1).files ∙ l.files;
    frames = SamePayload-trans l.frames ((rest a).leaves s1).frames;
  }
  resume-Light f s s1 (err e) l rest = l
  resume-Light f s s1 Result.panicked l rest = l

  bind-IsLight :
      {A B : Type 0} (m : PoolCall S A) (f : A → PoolCall S B)
      → IsLight m
      → ((a : A) → IsLight (f a))
      → IsLight (m >>= f)
  bind-IsLight m f first rest = record {
    leaves = λ s. resume-Light f s (m s).0 (m s).1 (first.leaves s) rest;
  }

  change_frame-IsLight :
      (i : ℕ) (change : Frame → Frame)
      → ((f : Frame) → payload (change f) ≡ payload f)
      → IsLight (change_frame i change)
  unfolding change_frame
  change_frame-IsLight i change same = record {
    leaves = λ s. elim (Option-cases (get_elem? s.frames i)) [
      | inl missing ↦ rw missing (Light-refl s)
      | inr (f, e) ↦
          rw (ap (λ p. p.0) (change_frame-run s i change f e))
            (record { files = refl; frames = set-SamePayload s.frames i f (change f) e (same f) })
    ];
  }

  -- Calls that only read, and calls that move an end of the list.
  frame_at-IsLight : (i : ℕ) → IsLight (frame_at i)
  frame_at-IsLight i = record { leaves = Light-refl }

  head-IsLight : IsLight {A = Option ℕ} (gets (λ s. s.mru_head))
  head-IsLight = record { leaves = Light-refl }

  set_head-IsLight : (o : Option ℕ) → IsLight (modify (λ s. record s { mru_head = o }))
  set_head-IsLight o = record {
    leaves = λ s. record { files = refl; frames = SamePayload-refl s.frames };
  }

  set_prev-IsLight : (o prev : Option ℕ) → IsLight (set_prev o prev)
  unfolding set_prev
  set_prev-IsLight none prev = record {
    leaves = λ s. record { files = refl; frames = SamePayload-refl s.frames };
  }
  set_prev-IsLight (some i) prev = change_frame-IsLight i _ (λ f. refl)

  skip_forward-IsLight : (i : ℕ) (prev next : Option ℕ) → IsLight (skip_forward i prev next)
  skip_forward-IsLight i (some k) next = change_frame-IsLight k _ (λ f. refl)
  skip_forward-IsLight i none next = record {
    leaves = λ s. elim (Bool-cases (is_end s.mru_head i)) [
      | inl here ↦ rw here (record { files = refl; frames = SamePayload-refl s.frames })
      | inr other ↦ rw other (Light-refl s)
    ];
  }

  skip_back-IsLight : (i : ℕ) (prev next : Option ℕ) → IsLight (skip_back i prev next)
  skip_back-IsLight i prev (some k) = change_frame-IsLight k _ (λ f. refl)
  skip_back-IsLight i prev none = record {
    leaves = λ s. elim (Bool-cases (is_end s.lru_tail i)) [
      | inl here ↦ rw here (record { files = refl; frames = SamePayload-refl s.frames })
      | inr other ↦ rw other (Light-refl s)
    ];
  }

  link_head-IsLight : (i : ℕ) → IsLight {A = Unit {0}} (link_head i)
  unfolding link_head
  link_head-IsLight i = bind-IsLight (gets (λ s. s.mru_head)) _ head-IsLight (λ head.
      bind-IsLight (change_frame i _) _ (change_frame-IsLight i _ (λ f. refl)) (λ _.
        bind-IsLight (set_prev head (some i)) _ (set_prev-IsLight head (some i))
          (λ _. set_head-IsLight (some i))))

  pub unlink-IsLight : (i : ℕ) → IsLight {A = Unit {0}} (unlink i)
  unfolding unlink
  unlink-IsLight i = bind-IsLight (frame_at i) _ (frame_at-IsLight i) (λ frame.
      bind-IsLight (skip_forward i frame.prev frame.next) _
        (skip_forward-IsLight i frame.prev frame.next)
        (λ _.
          bind-IsLight (skip_back i frame.prev frame.next) _
            (skip_back-IsLight i frame.prev frame.next)
            (λ _. change_frame-IsLight i _ (λ f. refl))))

  pub touch-IsLight : (i : ℕ) → IsLight {A = Unit {0}} (touch i)
  unfolding touch
  touch-IsLight i = bind-IsLight (unlink i) _ (unlink-IsLight i) (λ _. link_head-IsLight i)
