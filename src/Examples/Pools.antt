-- ===== src/Examples/Pools.antt =====
-- A buffer pool of two frames, and calls on it.
use rs_redbase.Prelude.{
  ℕ, zero, suc, ◌≡◌, refl, ap, inl, inr, true, false, Option, some, none, [], ◌∷◌, get_elem?,
  length, replicate, ok, arith,
}
use rs_redbase.Prelude.Bytes.{Bytes}
use rs_redbase.Page.File.Store.{Listed}
use rs_redbase.Buffer.{BufferKey, Frame, BufferPoolState, put_key, new}
use rs_redbase.Buffer.Recycled.{put_key-new}
use rs_redbase.Buffer.Frames.Links.{Segment}
use rs_redbase.Buffer.Frames.{find_unpinned, touch}
use rs_redbase.Buffer.Frames.Linked.{Linked, SameBesides}
use rs_redbase.Buffer.Frames.Touched.{touch-Linked}
use rs_redbase.Buffer.Frames.Victim.{IsVictim, find_unpinned-IsVictim}
use rs_redbase.Buffer.Pool.{BufferGuard, read_guard, write_guard, drop_guard}
use rs_redbase.Buffer.Steps.{IsPool}
use rs_redbase.Buffer.Guards.{Dropped, guard-Ends}
use rs_redbase.Buffer.Started.{AreFree, new-IsPool}
use rs_redbase.Buffer.Frames.Numbers.{without}

abbrev pool0 : BufferPoolState Bytes
pool0 = new 2

new-IsPool_example : IsPool pool0 [] × AreFree 2 pool0
new-IsPool_example = new-IsPool 2

-- Two frames in use: 1 was used last and is pinned, 0 is not pinned.
abbrev key0 : BufferKey
key0 = record { file_id = 0; page_id = 4 }

abbrev key1 : BufferKey
key1 = record { file_id = 0; page_id = 5 }

abbrev frame0 : Frame
frame0 = record {
  key = some key0;
  bytes = replicate 4092 0;
  dirty = false;
  pin_count = 0;
  prev = some 1;
  next = none;
}

abbrev frame1 : Frame
frame1 = record {
  key = some key1;
  bytes = replicate 4092 0;
  dirty = true;
  pin_count = 1;
  prev = none;
  next = some 0;
}

abbrev two_used : BufferPoolState Bytes
two_used = record {
  files = λ file_id. none;
  next_file_id = 0;
  page_table = put_key (put_key (λ key. none) key0 (some 0)) key1 (some 1);
  frames = frame0 ∷ frame1 ∷ [];
  free_list = [];
  mru_head = some 1;
  lru_tail = some 0;
}

all-Listed : (i : ℕ) (f : Frame) → get_elem? two_used.frames i ≡ some f → Listed i (1 ∷ 0 ∷ [])
all-Listed zero f e = inr (inl refl)
all-Listed (suc zero) f e = inl refl
all-Listed (suc (suc i)) f e = absurd cc

two-Linked : Linked two_used (1 ∷ 0 ∷ [])
unfolding Segment
two-Linked = record {
  head = refl;
  tail = refl;
  links = (frame1, refl, refl, refl, (frame0, refl, refl, refl, tt));
  distinct = ((λ same. absurd (omega arith), tt), (tt, tt));
  loose = λ i f e out. absurd (out (all-Listed i f e));
}

-- Frame 0 moves to the front.
touch-Linked_example :
    (s' : BufferPoolState Bytes) × (touch 0 two_used ≡ (s', ok tt))
    × Linked s' (0 ∷ without 0 (1 ∷ 0 ∷ []))
    × SameBesides two_used s'
touch-Linked_example = touch-Linked two_used (1 ∷ 0 ∷ []) 0 two-Linked (omega arith)

find_unpinned-IsVictim_example :
    (o : Option ℕ) × (find_unpinned (length two_used.frames) two_used two_used.lru_tail ≡ ok o)
    × IsVictim two_used (1 ∷ 0 ∷ []) o
find_unpinned-IsVictim_example = find_unpinned-IsVictim two_used (1 ∷ 0 ∷ []) two-Linked

moved_list : without 0 (1 ∷ 0 ∷ []) ≡ 1 ∷ []
moved_list = refl

-- The victim is frame 0.
victim_run : find_unpinned 2 two_used (some 0) ≡ ok (some 0)
unfolding find_unpinned
victim_run = refl

two-IsPool : IsPool two_used (1 ∷ 0 ∷ [])
two-IsPool = record {
  linked = two-Linked;
  free_inside = λ i l. absurd l;
  free_distinct = tt;
  apart = λ i l listed. l;
  free_idle = λ i f l e. absurd l;
  table = λ key i e. elim (put_key-new (put_key (λ key. none) key0 (some 0)) key1 key 1 i e) [
    | inl (same, here) ↦ rw same ((omega arith, λ l. l), (frame1, refl, ap (λ k. some k) here))
    | inr before ↦ elim (put_key-new (λ key. none) key0 key 0 i before) [
      | inl (same, here) ↦ rw same ((omega arith, λ l. l), (frame0, refl, ap (λ k. some k) here))
      | inr none_before ↦ absurd cc
    ]
  ];
}

abbrev guard1 : BufferGuard
guard1 = record { frame_id = 1; file_id = 0; page_id = 5 }

abbrev written : BufferPoolState Bytes
written = record two_used { frames = frame0 ∷ record frame1 { bytes = replicate 4092 7 } ∷ [] }

guard-Ends_example :
    (read_guard guard1 two_used ≡ (two_used, ok frame1.bytes))
    × ((write_guard guard1 (replicate 4092 7) two_used ≡ (written, ok tt))
        × IsPool written (1 ∷ 0 ∷ []))
    × ((s' : BufferPoolState Bytes) × (drop_guard guard1 two_used ≡ (s', ok tt))
        × Dropped guard1 two_used (1 ∷ 0 ∷ []) frame1 two-IsPool (omega arith, λ l. l) refl 0 s')
guard-Ends_example =
    guard-Ends guard1 two_used (1 ∷ 0 ∷ []) frame1 two-IsPool (omega arith, λ l. l) refl
      (replicate 4092 7) 0 refl
