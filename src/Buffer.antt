-- ===== src/Buffer.antt =====
-- The buffer pool of storage/buffer: its data. The pool is one state behind one lock, so that an
-- operation is a step on the state; a `HashMap` is a function.
pub mod Frames
pub mod Pool
pub mod Steps
pub mod FrameSteps
pub mod Light
pub mod Recycled
pub mod Written
pub mod Handled
pub mod Pins
pub mod Acquired
pub mod Holding
pub mod Pinned
pub mod Returned
pub mod Fetched
pub mod Started
pub mod Guards
use rs_redbase.Prelude.{
  ℕ, zero, suc, Bool, false, ◌&&◌, Option, none, List, [], ◌∷◌, replicate, ◌==◌, if◌then◌else◌,
}
use rs_redbase.Prelude.Call.{Call}
use rs_redbase.Prelude.Bytes.{Bytes}
use rs_redbase.Storage.{BufferPoolError}
use rs_redbase.Page.File.{PageFile}

pub record BufferKey : Type 0 where
  pub file_id : ℕ
  pub page_id : ℕ

abbrev pub same_key : BufferKey → BufferKey → Bool
same_key a b = a.file_id == b.file_id && a.page_id == b.page_id

-- `bytes` is the field `data` of the source.
pub record Frame : Type 0 where
  pub key : Option BufferKey
  pub bytes : Bytes
  pub dirty : Bool
  pub pin_count : ℕ
  pub prev : Option ℕ
  pub next : Option ℕ

abbrev pub empty_frame : Frame
empty_frame = record {
  key = none;
  bytes = replicate 4092 0;
  dirty = false;
  pin_count = 0;
  prev = none;
  next = none;
}

-- `free_list` is a stack: the end of the source's vector comes first.
pub record BufferPoolState (S : Type 0) : Type 0 where
  pub files : ℕ → Option (PageFile S)
  pub next_file_id : ℕ
  pub page_table : BufferKey → Option ℕ
  pub frames : List Frame
  pub free_list : List ℕ
  pub mru_head : Option ℕ
  pub lru_tail : Option ℕ

abbrev pub PoolCall : Type 0 → Type 0 → Type 0
PoolCall S A = Call (BufferPoolState S) BufferPoolError A

-- `first`, `first + 1` and so on, `n` numbers.
abbrev pub count_from : ℕ → ℕ → List ℕ
count_from first zero = []
count_from first (suc n) = first ∷ count_from (suc first) n

unfoldable pub new : {S : Type 0} → ℕ → BufferPoolState S
new capacity = record {
  files = λ file_id. none;
  next_file_id = 0;
  page_table = λ key. none;
  frames = replicate capacity empty_frame;
  free_list = count_from 0 capacity;
  mru_head = none;
  lru_tail = none;
}

-- `HashMap::insert` and `remove` of the page table.
abbrev pub put_key : (BufferKey → Option ℕ) → BufferKey → Option ℕ → BufferKey → Option ℕ
put_key table key value k = if same_key k key then value else table k

-- And of the files.
abbrev pub put_file :
    {S : Type 0} → (ℕ → Option (PageFile S)) → ℕ → Option (PageFile S) → ℕ → Option (PageFile S)
put_file files file_id value i = if i == file_id then value else files i
