-- ===== src/Storage.antt =====
-- The error types and identifiers of storage/page and storage/buffer, and `usize` arithmetic.
use rs_redbase.Prelude.{ℕ, ◌+◌, ◌*◌, String, Option, none, some, ltb, if◌then◌else◌}

-- `std::io::Error`, by its code: the program only passes it on.
pub data IoError : Type 0 where
  os : ℕ → IoError

-- The messages of `Corrupted` and `LockPoisoned` are texts.
pub data PageStoreError : Type 0 where
  io : IoError → PageStoreError
  invalid_page_id page_already_free : ℕ → PageStoreError
  corrupted : String → PageStoreError

pub data BufferPoolError : Type 0 where
  page_store : PageStoreError → BufferPoolError
  unknown_file file_has_pinned_pages : ℕ → BufferPoolError
  no_frame_available : BufferPoolError
  corrupted lock_poisoned : String → BufferPoolError

-- `checked_add` on a 64-bit `usize`.
abbrev pub checked_add : ℕ → ℕ → Option ℕ
checked_add a b = if ltb (a + b) 18446744073709551616 then some (a + b) else none

-- `checked_add` on `u32`.
abbrev pub checked_add_u32 : ℕ → ℕ → Option ℕ
checked_add_u32 a b = if ltb (a + b) 4294967296 then some (a + b) else none

-- `checked_mul` on `u64`.
abbrev pub checked_mul : ℕ → ℕ → Option ℕ
checked_mul a b = if ltb (a * b) 18446744073709551616 then some (a * b) else none
