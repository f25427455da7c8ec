-- ===== src/Buffer/Handled.antt =====
-- The operations of storage/buffer on one frame as steps of the pool.
use rs_redbase.Prelude.{ℕ, refl, Bool, true, false, some, if◌then◌else◌, ok}
use rs_redbase.Prelude.Call.{pure, reads}
use rs_redbase.Page.Io.{PageIo}
use rs_redbase.Buffer.{Frame, PoolCall}
use rs_redbase.Buffer.Frames.{frame_at, touch}
use rs_redbase.Buffer.Pool.{on_file, recycle_frame, write_back, flush_frame_if_dirty, take_victim}
use rs_redbase.Buffer.Steps.{IsStep, bind-IsStep, reads-IsStep, on_file-IsStep}
use rs_redbase.Buffer.FrameSteps.{change_frame-IsStep, touch-IsStep}
use rs_redbase.Buffer.Recycled.{recycle_frame-IsStep}

module _ {S : Type 0} where
  if-IsStep :
      {A : Type 0} (i : ℕ) (b : Bool) (m n : PoolCall S A)
      → IsStep i m
      → IsStep i n
      → IsStep i (if b then m else n)
  if-IsStep i true m n sm sn = sm
  if-IsStep i false m n sm sn = sn

module _ (Io : PageIo) where
  write_back-IsStep : (i : ℕ) (frame : Frame) → IsStep i (write_back Io i frame)
  unfolding write_back
  write_back-IsStep i frame = bind-IsStep i (reads _) _ (reads-IsStep i _) (λ key.
      bind-IsStep i (on_file key.file_id _) _ (on_file-IsStep i key.file_id _) (λ _.
        bind-IsStep i (on_file key.file_id _) _ (on_file-IsStep i key.file_id _)
          (λ _. change_frame-IsStep i _ (λ f. (refl, refl, refl)))))

  pub flush_frame_if_dirty-IsStep : (i : ℕ) → IsStep i (flush_frame_if_dirty Io i)
  unfolding flush_frame_if_dirty
  flush_frame_if_dirty-IsStep i = bind-IsStep i (frame_at i) _ (reads-IsStep i _) (λ frame.
      if-IsStep i frame.dirty (write_back Io i frame) (pure tt) (write_back-IsStep i frame)
        (reads-IsStep i _))

  pub take_victim-IsStep : (i : ℕ) → IsStep i (take_victim Io (some i))
  take_victim-IsStep i =
      bind-IsStep i (flush_frame_if_dirty Io i) _ (flush_frame_if_dirty-IsStep i) (λ _.
        bind-IsStep i (recycle_frame i) _ (recycle_frame-IsStep i)
          (λ _. bind-IsStep i (touch i) _ (touch-IsStep i) (λ _. reads-IsStep i (λ s. ok i))))
