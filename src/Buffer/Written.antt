-- ===== src/Buffer/Written.antt =====
-- `take_victim` of storage/buffer: an evicted page was written to its file, and its frame is idle.
use rs_redbase.Prelude.{
  ℕ, Bool, ◌≡◌, ◌≢◌, refl, sym, ◌∙◌, ap, inl, inr, true, false, Option, none, some, Option-cases,
  Bool-cases, ◌==◌, ==_refl, if◌then◌else◌, get_elem?, Result, ok, err, ok_or, map_err,
  ok_injective, arith,
}
use rs_redbase.Prelude.Call.{◌>>=◌, ◌>>◌, pure, reads}
use rs_redbase.Storage.{BufferPoolError, page_store, PageStoreError}
use rs_redbase.Page.Io.{PageIo}
use rs_redbase.Page.File.{PageFile, FileCall, put_page_data}
use rs_redbase.Page.File
use rs_redbase.Buffer.{BufferKey, Frame, BufferPoolState, PoolCall, put_file}
use rs_redbase.Buffer.Frames.{change_frame, unlink, touch}
use rs_redbase.Buffer.Frames.Links.{set_here, change_frame-run}
use rs_redbase.Buffer.Pool.{
  run_on, on_file, recycle_frame, write_back, flush_frame_if_dirty, take_victim,
}
use rs_redbase.Buffer.Steps.{IsIdle}
use rs_redbase.Buffer.FrameSteps.{IsIdle-same}
use rs_redbase.Buffer.Light.{chain_returned, Light, unlink-IsLight, touch-IsLight}
use rs_redbase.Buffer.Recycled.{recycled, recycle-run, recycle-refused}

map_err-ok :
    {A : Type 0} (r : Result PageStoreError A) (a : A) → map_err page_store r ≡ ok a → r ≡ ok a
map_err-ok (ok b) a e = ap ok (ok_injective e)
map_err-ok (err x) a e = cc
map_err-ok Result.panicked a e = cc

ok_or-some :
    {E A : Type 0} (o : Option A) (problem : E) (a : A) → ok_or o problem ≡ ok a → o ≡ some a
ok_or-some none problem a e = cc
ok_or-some (some b) problem a e = ap some (ok_injective e)

one_value : {A : Type 0} (o : Option A) (a b : A) → o ≡ some a → o ≡ some b → a ≡ b
one_value o a b ea eb = cc

-- Frame `i` is idle.
abbrev pub Idle : {S : Type 0} → BufferPoolState S → ℕ → Type 0
Idle s i = (f : Frame) × (get_elem? s.frames i ≡ some f) × IsIdle f

module _ {S : Type 0} where
  -- A call on a file that returned.
  record OnFile {A : Type 0} (file_id : ℕ) (call : FileCall S A) (s s' : BufferPoolState S) (a : A)
      : Type 0 where
    file : PageFile S
    file' : PageFile S
    registered : s.files file_id ≡ some file
    run : call file ≡ (file', ok a)
    left : s'.files ≡ put_file s.files file_id (some file')

  on_file-returned :
      {A : Type 0} (file_id : ℕ) (call : FileCall S A) (s s' : BufferPoolState S) (a : A)
      → on_file file_id call s ≡ (s', ok a)
      → OnFile file_id call s s' a
  unfolding on_file
  on_file-returned file_id call s s' a e = elim (Option-cases (s.files file_id)) [
    | inl missing ↦
        let run = sym (ap (λ o. run_on file_id call o s) missing) ∙ e in
        absurd (let k = ap (λ p. p.1) run in cc)
    | inr (file, registered) ↦
        let run = sym (ap (λ o. run_on file_id call o s) registered) ∙ e in
        record {
          file = file;
          file' = (call file).0;
          registered = registered;
          run = ap (λ r. ((call file).0, r)) (map_err-ok (call file).1 a (ap (λ p. p.1) run));
          left = sym (ap (λ p. p.0.files) run);
        }
  ]

  Idle-kept : (i : ℕ) (s s' : BufferPoolState S) → Light s s' → Idle s i → Idle s' i
  Idle-kept i s s' l (f, e, idle) =
      let (f', e', p) = l.frames.same i f e in (f', e', IsIdle-same f f' p idle)

  -- The frame was recycled: it was not pinned.
  recycled-returned :
      (i : ℕ) (s s' : BufferPoolState S) (f : Frame)
      → get_elem? s.frames i ≡ some f
      → recycle_frame i s ≡ (s', ok tt)
      → Idle s' i × (s'.files ≡ s.files)
  recycled-returned i s s' f e ran = elim (Bool-cases (f.pin_count == 0)) [
    | inl free ↦
        let s1 = recycled s i f e in
        let run : unlink i s1 ≡ (s', ok tt) = sym (recycle-run s i f e free) ∙ ran in
        let l : Light s1 s' = rw (← ap (λ p. p.0) run) ((unlink-IsLight i).leaves s1) in
        let idle : IsIdle (record f { key = none; dirty = false }) = (refl, refl, ground arith) in
        (Idle-kept i s1 s' l (_, set_here s.frames i f _ e, idle), l.files)
    | inr pinned ↦ absurd (let k = ap (λ p. p.1) (sym (recycle-refused s i f e pinned) ∙ ran) in cc)
  ]

  recycle_frame-returned :
      (i : ℕ) (s s' : BufferPoolState S)
      → recycle_frame i s ≡ (s', ok tt)
      → Idle s' i × (s'.files ≡ s.files)
  unfolding recycle_frame
  recycle_frame-returned i s s' ran = elim (Option-cases (get_elem? s.frames i)) [
    | inl missing ↦
        let lost : recycle_frame i s ≡ (s, Result.panicked) = rw missing refl in
        absurd (let k = ap (λ p. p.1) (sym lost ∙ ran) in cc)
    | inr (f, e) ↦ recycled-returned i s s' f e ran
  ]

  change_frame-files :
      (i : ℕ) (change : Frame → Frame) (s s' : BufferPoolState S)
      → change_frame i change s ≡ (s', ok tt)
      → s'.files ≡ s.files
  unfolding change_frame
  change_frame-files i change s s' ran = elim (Option-cases (get_elem? s.frames i)) [
    | inl missing ↦
        let lost : change_frame i change s ≡ (s, Result.panicked) = rw missing refl in
        absurd (let k = ap (λ p. p.1) (sym lost ∙ ran) in cc)
    | inr (f, e) ↦ ap (λ p. p.0.files) (sym ran ∙ change_frame-run s i change f e)
  ]

module _ (Io : PageIo) where
  -- What a frame had to write is in the file of its page: writing the page's data and flushing the file
  -- succeeded, and the other files are as before.
  abbrev pub IsWritten : Frame → BufferPoolState Io.State → BufferPoolState Io.State → Type 0
  IsWritten f s s' =
      (key : BufferKey) × (file file1 file2 : PageFile Io.State) × (f.key ≡ some key)
      × (s.files key.file_id ≡ some file)
      × ((File.write_page Io key.page_id >>= λ _. put_page_data f.bytes) file ≡ (file1, ok tt))
      × (File.flush Io file1 ≡ (file2, ok tt))
      × (s'.files key.file_id ≡ some file2)
      × ((k : ℕ) → k ≢ key.file_id → s'.files k ≡ s.files k)

  write_back-returned :
      (i : ℕ) (f : Frame) (s s' : BufferPoolState Io.State)
      → write_back Io i f s ≡ (s', ok tt)
      → IsWritten f s s'
  unfolding write_back
  write_back-returned i f s s' ran =
      let key_of : PoolCall Io.State BufferKey =
        reads (λ _. ok_or f.key (BufferPoolError.corrupted "dirty frame missing key")) in
      let write : BufferKey → FileCall Io.State (Unit {0}) =
        λ key. File.write_page Io key.page_id >>= λ _. put_page_data f.bytes in
      let clean : PoolCall Io.State (Unit {0}) = change_frame i (λ f. record f { dirty = false }) in
      let flush : BufferKey → PoolCall Io.State (Unit {0}) =
        λ key. on_file key.file_id (File.flush Io) in
      let rest : BufferKey → PoolCall Io.State (Unit {0}) =
        λ key. on_file key.file_id (write key) >> (flush key >> clean) in
      let (key, s1, run1, ran1) = chain_returned key_of rest s s' tt ran in
      let (u, s2, run2, ran2) =
        chain_returned (on_file key.file_id (write key)) (λ _. flush key >> clean) s1 s' tt ran1 in
      let (v, s3, run3, ran3) = chain_returned (flush key) (λ _. clean) s2 s' tt ran2 in
      let w = on_file-returned key.file_id (write key) s1 s2 tt run2 in
      let l = on_file-returned key.file_id (File.flush Io) s2 s3 tt run3 in
      let same : s1.files ≡ s.files = sym (ap (λ p. p.0.files) run1) in
      let last = change_frame-files i (λ f. record f { dirty = false }) s3 s' ran3 in
      let middle : s2.files key.file_id ≡ some w.file' =
        ap (λ t. t key.file_id) w.left
        ∙ ap (λ b. if b then some w.file' else s1.files key.file_id) (==_refl key.file_id) in
      let again : l.file ≡ w.file' =
        one_value (s2.files key.file_id) l.file w.file' l.registered middle in
      (
        key,
        w.file,
        w.file',
        l.file',
        ok_or-some f.key _ key (ap (λ p. p.1) run1),
        ap (λ t. t key.file_id) (sym same) ∙ w.registered,
        w.run,
        ap (File.flush Io) (sym again) ∙ l.run,
        ap (λ t. t key.file_id) (last ∙ l.left)
            ∙ ap (λ b. if b then some l.file' else s2.files key.file_id) (==_refl key.file_id),
        λ k other.
            let ne : k == key.file_id ≡ false = ground arith in
            ap (λ t. t k) (last ∙ l.left)
            ∙ ap (λ b. if b then some l.file' else s2.files k) ne
            ∙ ap (λ t. t k) w.left
            ∙ ap (λ b. if b then some w.file' else s1.files k) ne
            ∙ ap (λ t. t k) same,
      )

  -- What the files have after the frame's page is evicted: what it had to write, or what they had.
  abbrev pub Saved : Bool → Frame → BufferPoolState Io.State → BufferPoolState Io.State → Type 0
  Saved true f s s' = IsWritten f s s'
  Saved false f s s' = s'.files ≡ s.files

  Saved-same :
      (b : Bool) (f : Frame) (s s1 s' : BufferPoolState Io.State)
      → s'.files ≡ s1.files
      → Saved b f s s1
      → Saved b f s s'
  Saved-same false f s s1 s' same h = same ∙ h
  Saved-same true f s s1 s' same (key, file, file1, file2, k, before, write, flush, here, others) =
      (
        key,
        file,
        file1,
        file2,
        k,
        before,
        write,
        flush,
        ap (λ t. t key.file_id) same ∙ here,
        λ j other. ap (λ t. t j) same ∙ others j other,
      )

  flushed :
      (b : Bool) (i : ℕ) (f : Frame) (s s' : BufferPoolState Io.State)
      → (if b then write_back Io i f else pure tt) s ≡ (s', ok tt)
      → Saved b f s s'
  flushed true i f s s' ran = write_back-returned i f s s' ran
  flushed false i f s s' ran = ap (λ p. p.0.files) (sym ran)

  flush_frame_if_dirty-returned :
      (i : ℕ) (f : Frame) (s s' : BufferPoolState Io.State)
      → get_elem? s.frames i ≡ some f
      → flush_frame_if_dirty Io i s ≡ (s', ok tt)
      → Saved f.dirty f s s'
  unfolding flush_frame_if_dirty
  flush_frame_if_dirty-returned i f s s' e ran =
      let run : flush_frame_if_dirty Io i s ≡ (if f.dirty then write_back Io i f else pure tt) s =
        rw e refl in
      flushed f.dirty i f s s' (sym run ∙ ran)

  -- An evicted page was written, its frame is idle, and it is the frame that is returned.
  pub take_victim-returned :
      (i j : ℕ) (f : Frame) (s s' : BufferPoolState Io.State)
      → get_elem? s.frames i ≡ some f
      → take_victim Io (some i) s ≡ (s', ok j)
      → (j ≡ i) × Idle s' i × Saved f.dirty f s s'
  take_victim-returned i j f s s' e ran =
      let moved : PoolCall Io.State ℕ = touch i >> pure i in
      let (u, s1, run1, ran1) =
        chain_returned (flush_frame_if_dirty Io i) (λ _. recycle_frame i >> moved) s s' j ran in
      let (v, s2, run2, ran2) = chain_returned (recycle_frame i) (λ _. moved) s1 s' j ran1 in
      let (w, s3, run3, ran3) = chain_returned (touch i) (λ _. pure i) s2 s' j ran2 in
      let (idle, same) = recycle_frame-returned i s1 s2 run2 in
      let last : s3 ≡ s' = ap (λ p. p.0) ran3 in
      let l : Light s2 s' = rw (← last) (rw (← ap (λ p. p.0) run3) ((touch-IsLight i).leaves s2)) in
      (
        sym (ok_injective (ap (λ p. p.1) ran3)),
        Idle-kept i s2 s' l idle,
        Saved-same f.dirty f s s1 s' (l.files ∙ same)
            (flush_frame_if_dirty-returned i f s s1 e run1),
      )
