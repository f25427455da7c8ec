-- ===== src/Buffer/Steps.antt =====
-- Calls of storage/buffer that work on one frame: what they leave of the pool, however they end.
use rs_redbase.Prelude.{
  ℕ, ◌<◌, ◌≡◌, ◌≢◌, refl, sym, ◌∙◌, ap, inl, inr, false, Option, none, some, List, Bool-cases,
  Option-cases, if◌then◌else◌, get_elem?, length, Result, ok, err, arith,
}
use rs_redbase.Prelude.Call.{◌>>=◌, resume, reads}
use rs_redbase.Storage.{BufferPoolError, unknown_file}
use rs_redbase.Page.File.Store.{Listed, Distinct}
use rs_redbase.Page.File.{FileCall}
use rs_redbase.Buffer.{BufferKey, same_key, Frame, BufferPoolState, PoolCall, put_key}
use rs_redbase.Buffer.Frames.Links.{payload}
use rs_redbase.Buffer.Frames.Linked.{Linked}
use rs_redbase.Buffer.Pool.{on_file, run_on}
use rs_redbase.Buffer.Frames.Numbers.{Listed-in}

pub put_key-kept :
    (table : BufferKey → Option ℕ) (key k : BufferKey) (j : ℕ)
    → put_key table key none k ≡ some j
    → table k ≡ some j
put_key-kept table key k j e = elim (Bool-cases (same_key k key)) [
  | inl same ↦ let gone = sym (ap (λ b. if b then none else table k) same) ∙ e in absurd cc
  | inr other ↦ sym (ap (λ b. if b then none else table k) other) ∙ e
]

-- Without a page, with nothing to write, and unpinned.
abbrev pub IsIdle : Frame → Type 0
IsIdle f = (f.key ≡ none) × (f.dirty ≡ false) × (f.pin_count ≡ 0)

module _ {S : Type 0} where
  -- The frame is in use: it is of the pool, and not on the free list.
  abbrev pub IsBusy : BufferPoolState S → ℕ → Type 0
  IsBusy s i = (i < length s.frames) × (Listed i s.free_list → ⊥)

  -- The frame holds the page of the key.
  abbrev pub Holds : BufferPoolState S → ℕ → BufferKey → Type 0
  Holds s i key = (f : Frame) × (get_elem? s.frames i ≡ some f) × (f.key ≡ some key)

  -- The list of the frames in use is `ids`; the free frames are not in it, and are without a page, clean
  -- and unpinned; a frame that the page table names for a key is in use and holds that key's page.
  pub record IsPool (s : BufferPoolState S) (ids : List ℕ) : Type 0 where
    pub linked : Linked s ids
    pub free_inside : (i : ℕ) → Listed i s.free_list → i < length s.frames
    pub free_distinct : Distinct s.free_list
    pub apart : (i : ℕ) → Listed i s.free_list → Listed i ids → ⊥
    pub free_idle :
        (i : ℕ) (f : Frame) → Listed i s.free_list → get_elem? s.frames i ≡ some f → IsIdle f
    pub table : (key : BufferKey) (i : ℕ) → s.page_table key ≡ some i → IsBusy s i × Holds s i key

  -- Every frame but `i` holds what it held.
  pub record Others (i : ℕ) (s s' : BufferPoolState S) : Type 0 where
    pub free : s'.free_list ≡ s.free_list
    pub wide : length s'.frames ≡ length s.frames
    pub same :
        (k : ℕ) (f : Frame)
        → k ≢ i
        → get_elem? s.frames k ≡ some f
        → (f' : Frame) × (get_elem? s'.frames k ≡ some f') × (payload f' ≡ payload f)

  pub Others-refl : (i : ℕ) (s : BufferPoolState S) → Others i s s
  Others-refl i s = record { free = refl; wide = refl; same = λ k f o e. (f, e, refl) }

  pub Others-trans :
      (i : ℕ) {a b c : BufferPoolState S} → Others i a b → Others i b c → Others i a c
  Others-trans i p q = record {
    free = q.free ∙ p.free;
    wide = q.wide ∙ p.wide;
    same = λ k f o e.
        let (f1, e1, same1) = p.same k f o e in
        let (f2, e2, same2) = q.same k f1 o e1 in (f2, e2, same2 ∙ same1);
  }

  -- However a call on `s` ended, the pool is well formed, and every frame but `i` holds what it held.
  abbrev pub Ends :
      {A : Type 0} → ℕ → BufferPoolState S → BufferPoolState S × Result BufferPoolError A → Type 0
  Ends {A} i s outcome =
      (s' : BufferPoolState S) × (r : Result BufferPoolError A) × (ids : List ℕ) × (outcome
        ≡ (s', r))
      × IsPool s' ids
      × Others i s s'

  -- The call ends so from every state in which frame `i` is in use.
  abbrev pub IsStep : {A : Type 0} → ℕ → PoolCall S A → Type 0
  IsStep i m = (s : BufferPoolState S) (ids : List ℕ) → IsPool s ids → IsBusy s i → Ends i s (m s)

  pub IsBusy-after : (i : ℕ) (s s' : BufferPoolState S) → Others i s s' → IsBusy s i → IsBusy s' i
  IsBusy-after i s s' o (inside, used) = (omega (arith, o.wide), λ l. used (Listed-in i o.free l))

  -- The rest of a chain after its first call.
  pub after :
      {A B : Type 0} (i : ℕ) (m : PoolCall S A) (f : A → PoolCall S B) (s s1 : BufferPoolState S)
      (ids : List ℕ) (r : Result BufferPoolError A)
      → m s ≡ (s1, r)
      → ((a : A) → Ends i s1 (f a s1))
      → IsPool s1 ids
      → Others i s s1
      → Ends i s ((m >>= f) s)
  after i m f s s1 ids (ok a) run rest pool o =
      let (s', r, ids', run', pool', o') = rest a in
      (s', r, ids', ap (λ p. resume f p.0 p.1) run ∙ run', pool', Others-trans i o o')
  after i m f s s1 ids (err e) run rest pool o =
      (s1, err e, ids, ap (λ p. resume f p.0 p.1) run, pool, o)
  after i m f s s1 ids Result.panicked run rest pool o =
      (s1, Result.panicked, ids, ap (λ p. resume f p.0 p.1) run, pool, o)

  -- A chain of steps is a step.
  pub bind-IsStep :
      {A B : Type 0} (i : ℕ) (m : PoolCall S A) (f : A → PoolCall S B)
      → IsStep i m
      → ((a : A) → IsStep i (f a))
      → IsStep i (m >>= f)
  bind-IsStep i m f first rest s ids pool busy =
      let (s1, r, ids1, run, pool1, o1) = first s ids pool busy in
      after i m f s s1 ids1 r run (λ a. rest a s1 ids1 pool1 (IsBusy-after i s s1 o1 busy)) pool1 o1

  -- A call that only reads.
  pub reads-IsStep :
      {A : Type 0} (i : ℕ) (g : BufferPoolState S → Result BufferPoolError A) → IsStep i (reads g)
  reads-IsStep i g s ids pool busy = (s, g s, ids, refl, pool, Others-refl i s)

  -- The invariant is about the frames, the ends of their list, the free list and the page table.
  pub moved :
      (s s' : BufferPoolState S) (ids : List ℕ)
      → s'.frames ≡ s.frames
      → s'.mru_head ≡ s.mru_head
      → s'.lru_tail ≡ s.lru_tail
      → s'.free_list ≡ s.free_list
      → ((key : BufferKey) (i : ℕ) → s'.page_table key ≡ some i → IsBusy s i × Holds s i key)
      → IsPool s ids
      → IsPool s' ids
  moved s s' ids frames head tail free table pool =
      let l = pool.linked in
      record {
        linked = record {
          head = head ∙ l.head;
          tail = tail ∙ l.tail;
          links = rw frames l.links;
          distinct = l.distinct;
          loose = rw frames l.loose;
        };
        free_inside =
            λ i h. omega (arith, ap length frames, pool.free_inside i (Listed-in i free h));
        free_distinct = rw free pool.free_distinct;
        apart = λ i h. pool.apart i (Listed-in i free h);
        free_idle = λ i f h e.
            pool.free_idle i f (Listed-in i free h) (ap (λ l. get_elem? l i) (sym frames) ∙ e);
        table = λ key i e.
            let ((inside, used), (f, found, holds)) = table key i e in
            (
              (omega (arith, ap length frames, inside), λ l. used (Listed-in i free l)),
              (f, ap (λ l. get_elem? l i) frames ∙ found, holds),
            );
      }

  pub on_file-IsStep :
      {A : Type 0} (i file_id : ℕ) (call : FileCall S A) → IsStep i (on_file file_id call)
  unfolding on_file
  on_file-IsStep i file_id call s ids pool busy = elim (Option-cases (s.files file_id)) [
    | inl missing ↦ (
      s,
      err (unknown_file file_id),
      ids,
      ap (λ o. run_on file_id call o s) missing,
      pool,
      Others-refl i s,
    )
    | inr (file, e) ↦
        let s1 = (run_on file_id call (some file) s).0 in
        (
          s1,
          (run_on file_id call (some file) s).1,
          ids,
          ap (λ o. run_on file_id call o s) e,
          moved s s1 ids refl refl refl refl pool.table pool,
          record { free = refl; wide = refl; same = λ k f o e. (f, e, refl) },
        )
  ]
