-- ===== src/Buffer/Frames/Links.antt =====
-- The frames as a doubly linked list of numbers, and writes to their links.
use rs_redbase.Prelude.{
  ℕ, zero, suc, ◌<◌, ◌≡◌, refl, sym, ◌∙◌, ap, inl, inr, Bool, Option, none, some, List, [], ◌∷◌,
  ◌++◌, get_elem?, get_elem?-set_self, get_elem?-set_ne, set, length, length-set, ok, arith,
}
use rs_redbase.Prelude.Bytes.{Bytes}
use rs_redbase.Page.File.Store.{Listed}
use rs_redbase.Page.File.Represented.{same_or_other}
use rs_redbase.Buffer.{BufferKey, Frame, BufferPoolState}
use rs_redbase.Buffer.Frames.{change_frame}

abbrev pub first_or : List ℕ → Option ℕ → Option ℕ
first_or [] other = other
first_or (i ∷ is) other = some i

abbrev pub last_or : Option ℕ → List ℕ → Option ℕ
last_or other [] = other
last_or other (i ∷ is) = last_or (some i) is

-- A part of the list: the numbers of its frames, and the links at its two ends.
unfoldable pub Segment : List Frame → Option ℕ → List ℕ → Option ℕ → Type 0
Segment frames prev [] next = Unit
Segment frames prev (i ∷ is) next =
    (frame : Frame) × (get_elem? frames i ≡ some frame)
    × (frame.prev ≡ prev)
    × (frame.next ≡ first_or is next)
    × Segment frames (some i) is next

-- What a frame holds besides its links.
abbrev pub payload : Frame → Option BufferKey × Bytes × Bool × ℕ
payload f = (f.key, f.bytes, f.dirty, f.pin_count)

-- Only links differ.
pub record SamePayload (frames frames' : List Frame) : Type 0 where
  pub wide : length frames' ≡ length frames
  pub same :
      (i : ℕ) (frame : Frame)
      → get_elem? frames i ≡ some frame
      → (frame' : Frame) × (get_elem? frames' i ≡ some frame') × (payload frame' ≡ payload frame)

pub SamePayload-refl : (frames : List Frame) → SamePayload frames frames
SamePayload-refl frames = record { wide = refl; same = λ i f e. (f, e, refl) }

pub SamePayload-trans : {a b c : List Frame} → SamePayload a b → SamePayload b c → SamePayload a c
SamePayload-trans p q = record {
  wide = q.wide ∙ p.wide;
  same = λ i f e.
      let (f1, e1, same1) = p.same i f e in
      let (f2, e2, same2) = q.same i f1 e1 in (f2, e2, same2 ∙ same1);
}

pub get_in :
    (frames : List Frame) (i : ℕ) (frame : Frame)
    → get_elem? frames i ≡ some frame
    → i < length frames
get_in [] i frame e = cc
get_in (f ∷ frames) zero frame e = omega arith
get_in (f ∷ frames) (suc i) frame e = let h = get_in frames i frame e in omega arith

abbrev pub some_or : Frame → Option Frame → Frame
some_or frame none = frame
some_or frame (some f) = f

pub get_unique :
    (frames : List Frame) (k i : ℕ) (f frame : Frame)
    → get_elem? frames k ≡ some f
    → get_elem? frames i ≡ some frame
    → k ≡ i
    → f ≡ frame
get_unique frames k i f frame found e here =
    ap (some_or frame) (sym found ∙ ap (get_elem? frames) here ∙ e)

-- A frame got new links.
module _ (frames : List Frame) (i : ℕ) (frame frame' : Frame)
    (e : get_elem? frames i ≡ some frame) where
  pub set_here : get_elem? (set frames i frame') i ≡ some frame'
  set_here = get_elem?-set_self frames i frame' (get_in frames i frame e)

  pub set-SamePayload : payload frame' ≡ payload frame → SamePayload frames (set frames i frame')
  set-SamePayload same = record {
    wide = length-set frames i frame';
    same = λ k f found. elim (same_or_other k i) [
      | inl here ↦ (
        frame',
        ap (get_elem? (set frames i frame')) here ∙ set_here,
        same ∙ ap payload (sym (get_unique frames k i f frame found e here)),
      )
      | inr other ↦ (f, get_elem?-set_ne frames frame' (λ h. other (sym h)) ∙ found, refl)
    ];
  }

module _ {S : Type 0} where
  pub change_frame-run :
      (s : BufferPoolState S) (i : ℕ) (change : Frame → Frame) (frame : Frame)
      → get_elem? s.frames i ≡ some frame
      → change_frame i change s ≡ (record s { frames = set s.frames i (change frame) }, ok tt)
  unfolding change_frame
  change_frame-run s i change frame e = rw e refl

-- A part of the list stays when its frames do.
pub Segment-same :
    (frames frames' : List Frame) (prev : Option ℕ) (ids : List ℕ) (next : Option ℕ)
    → ((i : ℕ) → Listed i ids → get_elem? frames' i ≡ get_elem? frames i)
    → Segment frames prev ids next
    → Segment frames' prev ids next
unfolding Segment
Segment-same frames frames' prev [] next same u = u
Segment-same frames frames' prev (i ∷ is) next same (f, e, before, after, rest) = (
  f,
  same i (inl refl) ∙ e,
  before,
  after,
  Segment-same frames frames' (some i) is next (λ k l. same k (inr l)) rest,
)

pub Segment-set :
    (frames : List Frame) (prev : Option ℕ) (ids : List ℕ) (next : Option ℕ) (k : ℕ) (f : Frame)
    → (Listed k ids → ⊥)
    → Segment frames prev ids next
    → Segment (set frames k f) prev ids next
Segment-set frames prev ids next k f absent =
    Segment-same frames (set frames k f) prev ids next
      (λ i l. get_elem?-set_ne frames f (λ same. absent (rw same l)))

-- Two parts that meet.
pub Segment-append :
    (frames : List Frame) (prev : Option ℕ) (is js : List ℕ) (next : Option ℕ)
    → Segment frames prev is (first_or js next)
    → Segment frames (last_or prev is) js next
    → Segment frames prev (is ++ js) next
unfolding Segment
Segment-append frames prev [] js next u v = v
Segment-append frames prev (i ∷ []) js next (f, e, before, after, rest) v = (f, e, before, after, v)
Segment-append frames prev (i ∷ k ∷ is) js next (f, e, before, after, rest) v =
    (f, e, before, after, Segment-append frames (some i) (k ∷ is) js next rest v)

pub Segment-split :
    (frames : List Frame) (prev : Option ℕ) (is js : List ℕ) (next : Option ℕ)
    → Segment frames prev (is ++ js) next
    → Segment frames prev is (first_or js next) × Segment frames (last_or prev is) js next
unfolding Segment
Segment-split frames prev [] js next u = (tt, u)
Segment-split frames prev (i ∷ []) js next (f, e, before, after, rest) =
    ((f, e, before, after, tt), rest)
Segment-split frames prev (i ∷ k ∷ is) js next (f, e, before, after, rest) =
    let (u, v) = Segment-split frames (some i) (k ∷ is) js next rest in
    ((f, e, before, after, u), v)
