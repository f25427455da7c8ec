-- ===== src/Page/Io.antt =====
-- The trait `PageIo` of storage/page, which files and memory implement, and what a call of it does
-- when nothing fails.
use rs_redbase.Prelude.{ℕ, Bool, ◌==◌, ◌+◌, ◌≤◌, ◌≡◌, length, Result, ok}
use rs_redbase.Prelude.Call.{Call, ◌>>=◌, pure}
use rs_redbase.Prelude.Bytes.{Bytes, slice, Written}
use rs_redbase.Storage.{IoError}

pub record PageIo : Type 1 where
  pub State : Type 0
  -- The buffer comes back after an error too, with whatever was read into it.
  pub read_exact_at : State → ℕ → Bytes → (State × Bytes) × Result IoError (Unit {0})
  pub write_all_at : ℕ → Bytes → Call State IoError (Unit {0})
  pub set_len : ℕ → Call State IoError (Unit {0})
  pub len : Call State IoError ℕ
  pub sync_all : Call State IoError (Unit {0})

-- The provided method `is_empty`.
unfoldable pub is_empty : (Io : PageIo) → Call Io.State IoError Bool
is_empty Io = Io.len >>= λ len. pure (len == 0)

-- A file on which no call fails: reads, writes and the length behave as documented.
pub record IsReliable (Io : PageIo) : Type 0 where
  pub contents : Io.State → Bytes
  pub read :
      (s : Io.State) (offset : ℕ) (buf : Bytes)
      → offset + length buf ≤ length (contents s)
      → (s' : Io.State) × (buf' : Bytes) × (Io.read_exact_at s offset buf ≡ ((s', buf'), ok tt))
        × (contents s' ≡ contents s)
        × (length buf' ≡ length buf)
        × (slice {E = IoError} (contents s) offset (offset + length buf) ≡ ok buf')
  pub write :
      (s : Io.State) (offset : ℕ) (buf : Bytes)
      → offset + length buf ≤ length (contents s)
      → (s' : Io.State) × (Io.write_all_at offset buf s ≡ (s', ok tt))
        × Written IoError (contents s) offset buf (contents s')
  pub resize :
      (s : Io.State) (n : ℕ)
      → (s' : Io.State) × (Io.set_len n s ≡ (s', ok tt))
        × (length (contents s') ≡ n)
        × ((b e : ℕ)
            → e ≤ length (contents s)
            → e ≤ n
            → slice {E = IoError} (contents s') b e ≡ slice (contents s) b e)
  pub measure :
      (s : Io.State)
      → (s' : Io.State) × (Io.len s ≡ (s', ok (length (contents s)))) × (contents s' ≡ contents s)
  pub sync :
      (s : Io.State) → (s' : Io.State) × (Io.sync_all s ≡ (s', ok tt)) × (contents s' ≡ contents s)
