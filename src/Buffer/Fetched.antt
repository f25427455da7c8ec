-- ===== src/Buffer/Fetched.antt =====
-- `get_page`, `get_page_mut` and `allocate_page` of storage/buffer.
use rs_redbase.Prelude.{ℕ, ◌≡◌, List, Result, ok}
use rs_redbase.Storage.{BufferPoolError}
use rs_redbase.Buffer.{BufferPoolState, PoolCall}
use rs_redbase.Page.File
use rs_redbase.Prelude.Bytes.{Bytes}
use rs_redbase.Buffer.Pins.{PinsHold}
use rs_redbase.Buffer.Steps.{IsPool, IsBusy, Ends}
use rs_redbase.Buffer.Written.{Idle}

module _ {S : Type 0} where
  -- However the call ended, the pool is well formed, and pinned frames hold their pages.
  abbrev pub Keeps :
      {A : Type 0} → BufferPoolState S → BufferPoolState S × Result BufferPoolError A → Type 0
  Keeps {A} s outcome =
      (s' : BufferPoolState S) × (r : Result BufferPoolError A) × (ids : List ℕ) × (outcome
        ≡ (s', r))
      × IsPool s' ids
      × PinsHold s s'

  -- And a result that was returned is as it should be.
  abbrev pub Fetches :
      {A : Type 0}
      → (A → BufferPoolState S → Type 0)
      → BufferPoolState S
      → BufferPoolState S × Result BufferPoolError A
      → Type 0
  Fetches {A} Post s outcome =
      (s' : BufferPoolState S) × (r : Result BufferPoolError A) × (ids : List ℕ) × (outcome
        ≡ (s', r))
      × IsPool s' ids
      × PinsHold s s'
      × ((a : A) → r ≡ ok a → Post a s')

  -- A call on an idle frame that works on this frame alone.
  abbrev IsFilling : {A : Type 0} → ℕ → PoolCall S A → Type 0
  IsFilling i m =
      (s : BufferPoolState S) (ids : List ℕ) → IsPool s ids → IsBusy s i → Idle s i → Ends i s (m s)
