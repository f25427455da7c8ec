-- ===== src/Buffer/Pool.antt =====
-- The operations of `BufferPoolState` and `BufferPool` in storage/buffer.
use rs_redbase.Prelude.{
  ℕ, suc, Bool, true, false, ◌&&◌, not, Option, none, some, List, [], ◌∷◌, ◌==◌, if◌then◌else◌,
  length, replicate, err, map_err, ok_or,
}
use rs_redbase.Prelude.Call.{◌>>=◌, ◌>>◌, pure, reads, gets, modify, fail_if}
use rs_redbase.Prelude.Bytes.{Bytes}
use rs_redbase.Storage.{
  BufferPoolError, page_store, unknown_file, file_has_pinned_pages, no_frame_available,
  checked_add_u32,
}
use rs_redbase.Page.Io.{PageIo}
use rs_redbase.Page.File.{PageFile, FileCall, put_page_data}
use rs_redbase.Page.File
use rs_redbase.Buffer.{BufferKey, Frame, PoolCall, put_key, put_file}
use rs_redbase.Buffer.Frames.{
  frame_at, change_frame, link_head, unlink, touch, pin_frame, unpin_frame, find_unpinned,
}

-- A guard: the frame that it pins, and the page. Its data are the frame's.
pub record BufferGuard : Type 0 where
  pub frame_id : ℕ
  pub file_id : ℕ
  pub page_id : ℕ

abbrev pub is_present : Option ℕ → Bool
is_present none = false
is_present (some frame_id) = true

-- The frames of a file, or of one of its pages: `matches` is the test on a key.
abbrev has_key : (BufferKey → Bool) → Option BufferKey → Bool
has_key matches none = false
has_key matches (some key) = matches key

abbrev pub matching : (BufferKey → Bool) → ℕ → List Frame → List ℕ
matching matches frame_id [] = []
matching matches frame_id (frame ∷ frames) =
    let rest = matching matches (suc frame_id) frames in
    if has_key matches frame.key then frame_id ∷ rest else rest

abbrev is_pinned_in : (BufferKey → Bool) → List Frame → Bool
is_pinned_in matches [] = false
is_pinned_in matches (frame ∷ frames) =
    if has_key matches frame.key && not (frame.pin_count == 0)
    then true
    else is_pinned_in matches frames

module _ {S : Type 0} where
  abbrev pub run_on : {A : Type 0} → ℕ → FileCall S A → Option (PageFile S) → PoolCall S A
  run_on file_id call none s = (s, err (unknown_file file_id))
  run_on file_id call (some file) s =
      let (file1, r) = call file in
      (record s { files = put_file s.files file_id (some file1) }, map_err page_store r)

  -- A call on a registered file.
  unfoldable pub on_file : {A : Type 0} → ℕ → FileCall S A → PoolCall S A
  on_file file_id call = gets (λ s. s.files file_id) >>= run_on file_id call

  unfoldable pub register_file : PageFile S → PoolCall S ℕ
  register_file file = do
    file_id ← gets (λ s. s.next_file_id)
    next_file_id ← reads (λ s.
        ok_or (checked_add_u32 s.next_file_id 1) (BufferPoolError.corrupted "file id overflow"))
    modify (λ s. record s {
      next_file_id = next_file_id;
      files = put_file s.files file_id (some file);
    })
    pure file_id

  unfoldable pub forget_key : Option BufferKey → PoolCall S (Unit {0})
  forget_key none = pure tt
  forget_key (some key) = modify (λ s. record s { page_table = put_key s.page_table key none })

  unfoldable pub recycle_frame : ℕ → PoolCall S (Unit {0})
  recycle_frame frame_id = do
    frame ← frame_at frame_id
    fail_if (not (frame.pin_count == 0))
        (BufferPoolError.corrupted "attempted to recycle a pinned frame")
    forget_key frame.key
    change_frame frame_id (λ f. record f { key = none; dirty = false })
    unlink frame_id

  unfoldable pub evict_frame : ℕ → PoolCall S (Unit {0})
  evict_frame frame_id = do
    frame ← frame_at frame_id
    fail_if (not (frame.pin_count == 0))
        (BufferPoolError.corrupted "attempted to evict a pinned frame")
    recycle_frame frame_id
    modify (λ s. record s { free_list = frame_id ∷ s.free_list })

  unfoldable pub install_frame : ℕ → BufferKey → Bytes → Bool → PoolCall S (Unit {0})
  install_frame frame_id key bytes dirty = do
    present ← gets (λ s. is_present (s.page_table key))
    fail_if present (BufferPoolError.corrupted "page installed twice")
    change_frame frame_id
        (λ f. record f { bytes = bytes; key = some key; dirty = dirty; pin_count = 1 })
    modify (λ s. record s { page_table = put_key s.page_table key (some frame_id) })
    touch frame_id

  abbrev is_registered : Option (PageFile S) → Bool
  is_registered none = false
  is_registered (some file) = true

  abbrev for_each : (ℕ → PoolCall S (Unit {0})) → List ℕ → PoolCall S (Unit {0})
  for_each step [] = pure tt
  for_each step (frame_id ∷ rest) = step frame_id >> for_each step rest

  -- `read` of a guard, what the holder of a write guard does with `write`, and the drop of a guard.
  unfoldable pub read_guard : BufferGuard → PoolCall S Bytes
  read_guard guard = do frame ← frame_at guard.frame_id; pure frame.bytes

  unfoldable pub write_guard : BufferGuard → Bytes → PoolCall S (Unit {0})
  write_guard guard bytes = change_frame guard.frame_id (λ f. record f { bytes = bytes })

  unfoldable pub drop_guard : BufferGuard → PoolCall S (Unit {0})
  drop_guard guard = unpin_frame guard.frame_id

abbrev is_page : Option ℕ → ℕ → Bool
is_page none page_id = true
is_page (some wanted) page_id = wanted == page_id

module _ (Io : PageIo) where
  unfoldable pub allocate_page_id : ℕ → PoolCall Io.State ℕ
  allocate_page_id file_id = on_file file_id (File.allocate_page Io)

  unfoldable pub read_page_data : BufferKey → PoolCall Io.State Bytes
  read_page_data key = on_file key.file_id (File.read_page Io key.page_id)

  -- The frame is dirty.
  unfoldable pub write_back : ℕ → Frame → PoolCall Io.State (Unit {0})
  write_back frame_id frame = do
    key ← reads (λ _. ok_or frame.key (BufferPoolError.corrupted "dirty frame missing key"))
    on_file key.file_id (File.write_page Io key.page_id >>= λ _. put_page_data frame.bytes)
    on_file key.file_id (File.flush Io)
    change_frame frame_id (λ f. record f { dirty = false })

  unfoldable pub flush_frame_if_dirty : ℕ → PoolCall Io.State (Unit {0})
  flush_frame_if_dirty frame_id = do
    frame ← frame_at frame_id
    if frame.dirty then write_back frame_id frame else pure tt

  unfoldable pub force_file : ℕ → Option ℕ → PoolCall Io.State (Unit {0})
  force_file file_id page_id = do
    registered ← gets (λ s. is_registered (s.files file_id))
    fail_if (not registered) (unknown_file file_id)
    frame_ids ←
        gets
          (λ s. matching (λ key. key.file_id == file_id && is_page page_id key.page_id) 0 s.frames)
    for_each flush_frame_if_dirty frame_ids
    on_file file_id (File.flush Io)

  unfoldable pub flush_file : ℕ → PoolCall Io.State (Unit {0})
  flush_file file_id = do
    registered ← gets (λ s. is_registered (s.files file_id))
    fail_if (not registered) (unknown_file file_id)
    pinned ← gets (λ s. is_pinned_in (λ key. key.file_id == file_id) s.frames)
    fail_if pinned (file_has_pinned_pages file_id)
    frame_ids ← gets (λ s. matching (λ key. key.file_id == file_id) 0 s.frames)
    for_each (λ frame_id. flush_frame_if_dirty frame_id >> evict_frame frame_id) frame_ids
    on_file file_id (File.flush Io)

  -- With the victim of the search from the tail of the list.
  abbrev pub take_victim : Option ℕ → PoolCall Io.State ℕ
  take_victim none = reads (λ _. err no_frame_available)
  take_victim (some frame_id) = do
    flush_frame_if_dirty frame_id
    recycle_frame frame_id
    touch frame_id
    pure frame_id

  unfoldable pub evict_unpinned : PoolCall Io.State ℕ
  evict_unpinned = do
    victim ← reads (λ s. find_unpinned (length s.frames) s s.lru_tail)
    take_victim victim

  abbrev pub acquire_from : List ℕ → PoolCall Io.State ℕ
  acquire_from [] = evict_unpinned
  acquire_from (frame_id ∷ rest) = do
    modify (λ s. record s { free_list = rest })
    link_head frame_id
    pure frame_id

  unfoldable pub acquire_frame : PoolCall Io.State ℕ
  acquire_frame = gets (λ s. s.free_list) >>= acquire_from

  abbrev pub fetch_miss : BufferKey → Bool → PoolCall Io.State ℕ
  fetch_miss key dirty = do
    frame_id ← acquire_frame
    bytes ← read_page_data key
    install_frame frame_id key bytes dirty
    pure frame_id

  abbrev pub guard : BufferKey → ℕ → BufferGuard
  guard key frame_id = record { frame_id = frame_id; file_id = key.file_id; page_id = key.page_id }

  abbrev pub read_frame : BufferKey → Option ℕ → PoolCall Io.State ℕ
  read_frame key none = fetch_miss key false
  read_frame key (some frame_id) = pin_frame frame_id >> pure frame_id

  unfoldable pub get_page : ℕ → ℕ → PoolCall Io.State BufferGuard
  get_page file_id page_id = do
    let key : BufferKey = record { file_id = file_id; page_id = page_id }
    present ← gets (λ s. s.page_table key)
    frame_id ← read_frame key present
    pure (guard key frame_id)

  abbrev pub write_frame : BufferKey → Option ℕ → PoolCall Io.State ℕ
  write_frame key none = fetch_miss key true
  write_frame key (some frame_id) = do
    pin_frame frame_id
    change_frame frame_id (λ f. record f { dirty = true })
    pure frame_id

  unfoldable pub get_page_mut : ℕ → ℕ → PoolCall Io.State BufferGuard
  get_page_mut file_id page_id = do
    let key : BufferKey = record { file_id = file_id; page_id = page_id }
    present ← gets (λ s. s.page_table key)
    frame_id ← write_frame key present
    pure (guard key frame_id)

  unfoldable pub allocate_page : ℕ → PoolCall Io.State BufferGuard
  allocate_page file_id = do
    frame_id ← acquire_frame
    page_id ← allocate_page_id file_id
    let key : BufferKey = record { file_id = file_id; page_id = page_id }
    install_frame frame_id key (replicate 4092 0) true
    pure (guard key frame_id)

  unfoldable pub remove_file : ℕ → PoolCall Io.State (PageFile Io.State)
  remove_file file_id = do
    flush_file file_id
    file ← reads (λ s. ok_or (s.files file_id) (unknown_file file_id))
    modify (λ s. record s { files = put_file s.files file_id none })
    pure file
