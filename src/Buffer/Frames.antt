-- ===== src/Buffer/Frames.antt =====
-- The frames of the pool: their list from the most to the least recently used, and their pins.
pub mod Links
pub mod Numbers
pub mod Unlinked
pub mod Linked
pub mod Touched
pub mod Victim
use rs_redbase.Prelude.{
  ℕ, zero, suc, ◌+◌, ◌-◌, Bool, true, false, Option, none, some, ◌==◌, leb, if◌then◌else◌,
  get_elem?, set, length, Result, ok, err, expect,
}
use rs_redbase.Prelude.Call.{Call, ◌>>=◌, ◌>>◌, pure, reads, gets, modify}
use rs_redbase.Storage.{BufferPoolError}
use rs_redbase.Buffer.{Frame, BufferPoolState, PoolCall}

abbrev pub is_end : Option ℕ → ℕ → Bool
is_end none frame_id = false
is_end (some id) frame_id = id == frame_id

-- One round of the search, and how it goes on.
abbrev pub look_at :
    ℕ
    → (Option ℕ → Result BufferPoolError (Option ℕ))
    → Option Frame
    → Result BufferPoolError (Option ℕ)
look_at frame_id continue none = Result.panicked
look_at frame_id continue (some frame) =
    if frame.pin_count == 0 then ok (some frame_id) else continue frame.prev

module _ {S : Type 0} where
  -- `self.frames[frame_id]`.
  abbrev pub frame_at : ℕ → PoolCall S Frame
  frame_at frame_id = reads (λ s. expect (get_elem? s.frames frame_id))

  abbrev put_frame : BufferPoolState S → ℕ → Frame → BufferPoolState S
  put_frame s frame_id frame = record s { frames = set s.frames frame_id frame }

  -- A write to fields of `self.frames[frame_id]`.
  unfoldable pub change_frame : ℕ → (Frame → Frame) → PoolCall S (Unit {0})
  change_frame frame_id change = do
    frame ← frame_at frame_id
    modify (λ s. put_frame s frame_id (change frame))

  -- The frame before a neighbour, or the end of the list.
  unfoldable pub set_prev : Option ℕ → Option ℕ → PoolCall S (Unit {0})
  set_prev none prev = modify (λ s. record s { lru_tail = prev })
  set_prev (some frame_id) prev = change_frame frame_id (λ f. record f { prev = prev })

  unfoldable pub link_head : ℕ → PoolCall S (Unit {0})
  link_head frame_id = do
    head ← gets (λ s. s.mru_head)
    change_frame frame_id (λ f. record f { prev = none; next = head })
    set_prev head (some frame_id)
    modify (λ s. record s { mru_head = some frame_id })

  abbrev pub skip_forward : ℕ → Option ℕ → Option ℕ → PoolCall S (Unit {0})
  skip_forward frame_id (some prev_id) next = change_frame prev_id (λ f. record f { next = next })
  skip_forward frame_id none next =
      modify (λ s. if is_end s.mru_head frame_id then record s { mru_head = next } else s)

  abbrev pub skip_back : ℕ → Option ℕ → Option ℕ → PoolCall S (Unit {0})
  skip_back frame_id prev (some next_id) = change_frame next_id (λ f. record f { prev = prev })
  skip_back frame_id prev none =
      modify (λ s. if is_end s.lru_tail frame_id then record s { lru_tail = prev } else s)

  unfoldable pub unlink : ℕ → PoolCall S (Unit {0})
  unlink frame_id = do
    frame ← frame_at frame_id
    skip_forward frame_id frame.prev frame.next
    skip_back frame_id frame.prev frame.next
    change_frame frame_id (λ f. record f { prev = none; next = none })

  unfoldable pub touch : ℕ → PoolCall S (Unit {0})
  touch frame_id = unlink frame_id >> link_head frame_id

  -- `pin_count += 1` on a `u32`, which panics at the largest number.
  unfoldable pub pin_frame : ℕ → PoolCall S (Unit {0})
  pin_frame frame_id = do
    frame ← frame_at frame_id
    reads (λ _. if leb 4294967295 frame.pin_count then Result.panicked else ok tt)
    change_frame frame_id (λ f. record f { pin_count = suc f.pin_count })
    touch frame_id

  -- The frame is pinned.
  abbrev pub release : ℕ → PoolCall S (Unit {0})
  release frame_id = do
    change_frame frame_id (λ f. record f { pin_count = f.pin_count - 1 })
    frame ← frame_at frame_id
    if frame.pin_count == 0 then touch frame_id else pure tt

  -- Also what dropping a guard does.
  unfoldable pub unpin_frame : ℕ → PoolCall S (Unit {0})
  unpin_frame frame_id = do
    frame ← frame_at frame_id
    if frame.pin_count == 0 then pure tt else release frame_id

  -- The first frame, from the last one forwards, that is not pinned. The first argument bounds the
  -- frames looked at; the source's loop has no bound, and a list that ran back into itself would not
  -- let it end, which is a panic here.
  unfoldable pub find_unpinned :
      ℕ → BufferPoolState S → Option ℕ → Result BufferPoolError (Option ℕ)
  find_unpinned rounds s none = ok none
  find_unpinned zero s (some frame_id) = Result.panicked
  find_unpinned (suc rounds) s (some frame_id) =
      look_at frame_id (find_unpinned rounds s) (get_elem? s.frames frame_id)
