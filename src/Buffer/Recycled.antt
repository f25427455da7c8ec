-- ===== src/Buffer/Recycled.antt =====
-- `recycle_frame` and `install_frame` of storage/buffer: a frame changes its page, and the page table
-- with it.
use rs_redbase.Prelude.{
  ℕ, ◌≡◌, ◌⊎◌, refl, sym, ◌∙◌, ap, ap₂, inl, inr, Bool, true, false, Option, none, some, Bool-cases,
  ◌==◌, if◌then◌else◌, get_elem?, get_elem?_of_lt, set, ok, err, List, arith,
}
use rs_redbase.Prelude.Bytes.{Bytes}
use rs_redbase.Storage.{BufferPoolError}
use rs_redbase.Page.File.Flushed.{loaded_unique}
use rs_redbase.Page.File.Represented.{same_or_other}
use rs_redbase.Buffer.{BufferKey, same_key, Frame, BufferPoolState, put_key}
use rs_redbase.Buffer.Frames.{unlink, touch}
use rs_redbase.Buffer.Frames.Links.{get_unique, change_frame-run}
use rs_redbase.Buffer.Pool.{forget_key, recycle_frame, is_present, install_frame}
use rs_redbase.Buffer.Steps.{
  put_key-kept, IsBusy, IsPool, Others, Others-refl, Others-trans, Ends, IsStep, IsBusy-after,
}
use rs_redbase.Buffer.FrameSteps.{rekeyed, touch-IsStep, unlink-IsStep}

same_key_refl : (key : BufferKey) → same_key key key ≡ true
same_key_refl key = ground arith

same_key_eq : (a b : BufferKey) → same_key a b ≡ true → a ≡ b
same_key_eq a b same =
    let files : a.file_id ≡ b.file_id = ground arith in
    let pages : a.page_id ≡ b.page_id = ground arith in
    ap₂ (λ f p. let key : BufferKey = record { file_id = f; page_id = p } in key) files pages

-- The page table without a key.
abbrev pub forgotten : Option BufferKey → (BufferKey → Option ℕ) → BufferKey → Option ℕ
forgotten none table = table
forgotten (some key) table = put_key table key none

pub put_key-new :
    (table : BufferKey → Option ℕ) (key k : BufferKey) (i j : ℕ)
    → put_key table key (some i) k ≡ some j
    → ((j ≡ i) × (key ≡ k)) ⊎ (table k ≡ some j)
put_key-new table key k i j e = elim (Bool-cases (same_key k key)) [
  | inl same ↦
      let found = sym (ap (λ b. if b then some i else table k) same) ∙ e in
      inl (loaded_unique (some i) j i found refl, sym (same_key_eq k key same))
  | inr other ↦ inr (sym (ap (λ b. if b then some i else table k) other) ∙ e)
]

forgotten-kept :
    (o : Option BufferKey) (table : BufferKey → Option ℕ) (k : BufferKey) (j : ℕ)
    → forgotten o table k ≡ some j
    → table k ≡ some j
forgotten-kept none table k j e = e
forgotten-kept (some key) table k j e = put_key-kept table key k j e

forgotten-gone :
    (o : Option BufferKey) (table : BufferKey → Option ℕ) (k : BufferKey) (j : ℕ)
    → o ≡ some k
    → forgotten o table k ≡ some j
    → ⊥
forgotten-gone none table k j same e = cc
forgotten-gone (some key) table k j same e =
    let here : key ≡ k = ap (λ o. elim o [ none ↦ key | some k ↦ k ]) same in
    let gone : put_key table key none k ≡ none =
      ap (λ q. put_key table q none k) here
      ∙ ap (λ b. if b then none else table k) (same_key_refl k) in
    let no = sym gone ∙ e in cc

module _ {S : Type 0} where
  pub forget_key-run :
      (s : BufferPoolState S) (o : Option BufferKey)
      → forget_key o s ≡ (record s { page_table = forgotten o s.page_table }, ok tt)
  unfolding forget_key
  forget_key-run s none = refl
  forget_key-run s (some key) = refl

  module _ (s : BufferPoolState S) (i : ℕ) (f : Frame) (e : get_elem? s.frames i ≡ some f) where
    abbrev pub recycled : BufferPoolState S
    recycled = record s {
      page_table = forgotten f.key s.page_table;
      frames = set s.frames i (record f { key = none; dirty = false });
    }

    pub recycle-run : (f.pin_count == 0) ≡ true → recycle_frame i s ≡ unlink i recycled
    unfolding recycle_frame
    recycle-run free =
        rw
          (
            e,
            free,
            forget_key-run s f.key,
            change_frame-run (record s { page_table = forgotten f.key s.page_table }) i
                (λ f. record f { key = none; dirty = false }) f e,
          )
          refl

    pub recycle-refused :
        (f.pin_count == 0) ≡ false
        → recycle_frame i s
          ≡ (s, err (BufferPoolError.corrupted "attempted to recycle a pinned frame"))
    unfolding recycle_frame
    recycle-refused pinned = rw (e, pinned) refl

    -- A frame's key leaves the page table with the frame's page.
    pub recycled-IsPool :
        (ids : List ℕ) → IsPool s ids → IsBusy s i → IsPool recycled ids × Others i s recycled
    recycled-IsPool ids pool busy =
        rekeyed s ids i f (record f { key = none; dirty = false }) (forgotten f.key s.page_table) e
          refl refl
          (λ key k h.
            let kept = forgotten-kept f.key s.page_table key k h in
            let (b, (g, found, holds)) = pool.table key k kept in
            elim (same_or_other k i) [
              | inl same ↦
                  let here =
                    ap (λ g. g.key) (sym (get_unique s.frames k i g f found e same)) ∙ holds in
                  absurd (forgotten-gone f.key s.page_table key k here h)
              | inr other ↦ inr (other, kept)
            ])
          pool busy

    module _ (key : BufferKey) (bytes : Bytes) (dirty : Bool) where
      abbrev pub filled : Frame
      filled = record f { bytes = bytes; key = some key; dirty = dirty; pin_count = 1 }

      abbrev pub installed : BufferPoolState S
      installed = record s {
        page_table = put_key s.page_table key (some i);
        frames = set s.frames i filled;
      }

      pub install-run :
          is_present (s.page_table key) ≡ false
          → install_frame i key bytes dirty s ≡ touch i installed
      unfolding install_frame
      install-run absent =
          rw
            (
              absent,
              change_frame-run s i
                  (λ f. record f { bytes = bytes; key = some key; dirty = dirty; pin_count = 1 }) f
                  e,
            )
            refl

      pub install-refused :
          is_present (s.page_table key) ≡ true
          → install_frame i key bytes dirty s
            ≡ (s, err (BufferPoolError.corrupted "page installed twice"))
      unfolding install_frame
      install-refused present = rw present refl

      -- A frame without a page gets one.
      pub installed-IsPool :
          (ids : List ℕ)
          → f.key ≡ none
          → IsPool s ids
          → IsBusy s i
          → IsPool installed ids × Others i s installed
      installed-IsPool ids blank pool busy =
          rekeyed s ids i f filled (put_key s.page_table key (some i)) e refl refl
            (λ k j h. elim (put_key-new s.page_table key k i j h) [
              | inl (same, here) ↦ inl (same, ap (λ k. some k) here)
              | inr kept ↦
                  let (b, (g, found, holds)) = pool.table k j kept in
                  inr (
                    λ same.
                        let u = get_unique s.frames j i g f found e same in
                        let no = sym holds ∙ ap (λ g. g.key) u ∙ blank in absurd cc,
                    kept,
                  )
            ])
            pool busy

  pub recycle_frame-IsStep : (i : ℕ) → IsStep {S = S} i (recycle_frame i)
  recycle_frame-IsStep i s ids pool busy =
      let (f, e) = get_elem?_of_lt s.frames i busy.0 in
      elim (Bool-cases (f.pin_count == 0)) [
        | inl free ↦
            let (pool1, o1) = recycled-IsPool s i f e ids pool busy in
            let (s', r, ids', run, pool', o) =
              unlink-IsStep i (recycled s i f e) ids pool1 (IsBusy-after i s _ o1 busy) in
            (s', r, ids', recycle-run s i f e free ∙ run, pool', Others-trans i o1 o)
        | inr pinned ↦ (
          s,
          err (BufferPoolError.corrupted "attempted to recycle a pinned frame"),
          ids,
          recycle-refused s i f e pinned,
          pool,
          Others-refl i s,
        )
      ]

  -- Installing a page in a frame that has none.
  pub install_frame-Ends :
      (i : ℕ) (key : BufferKey) (bytes : Bytes) (dirty : Bool) (s : BufferPoolState S)
      (ids : List ℕ) (f : Frame)
      → get_elem? s.frames i ≡ some f
      → f.key ≡ none
      → IsPool s ids
      → IsBusy s i
      → Ends i s (install_frame i key bytes dirty s)
  install_frame-Ends i key bytes dirty s ids f e blank pool busy =
      elim (Bool-cases (is_present (s.page_table key))) [
        | inr absent ↦
            let (pool1, o1) = installed-IsPool s i f e key bytes dirty ids blank pool busy in
            let (s', r, ids', run, pool', o) =
              touch-IsStep i (installed s i f e key bytes dirty) ids pool1
                (IsBusy-after i s _ o1 busy) in
            (
              s',
              r,
              ids',
              install-run s i f e key bytes dirty absent ∙ run,
              pool',
              Others-trans i o1 o,
            )
        | inl present ↦ (
          s,
          err (BufferPoolError.corrupted "page installed twice"),
          ids,
          install-refused s i f e key bytes dirty present,
          pool,
          Others-refl i s,
        )
      ]
