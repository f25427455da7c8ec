-- ===== src/Buffer/Returned.antt =====
-- What `get_page`, `get_page_mut` and `allocate_page` of storage/buffer return: a guard of which the
-- frame holds the page, pinned.
use rs_redbase.Prelude.{
  ℕ, ◌≡◌, refl, sym, ◌∙◌, ap, inl, inr, Bool, true, false, List, Option-cases, replicate, ok,
  ok_injective,
}
use rs_redbase.Prelude.Call.{◌>>=◌, ◌>>◌, pure}
use rs_redbase.Prelude.Bytes.{Bytes}
use rs_redbase.Page.Io.{PageIo}
use rs_redbase.Page.File.{FileCall}
use rs_redbase.Page.File
use rs_redbase.Buffer.{BufferKey, BufferPoolState, PoolCall}
use rs_redbase.Buffer.Frames.{change_frame, pin_frame}
use rs_redbase.Buffer.Pool.{
  BufferGuard, acquire_frame, fetch_miss, guard, read_page_data, allocate_page_id, read_frame,
  write_frame, get_page, get_page_mut, allocate_page,
}
use rs_redbase.Buffer.Steps.{IsPool}
use rs_redbase.Buffer.Light.{chain_returned}
use rs_redbase.Buffer.Written.{Idle}
use rs_redbase.Buffer.Acquired.{acquire_frame-Acquires}
use rs_redbase.Buffer.Pinned.{
  IsPinned, Guarded, pin_frame-returned, marked-IsPinned, fill, fill-returned,
}

-- The guard is of that page.
abbrev pub IsFor : BufferGuard → ℕ → ℕ → Type 0
IsFor g file_id page_id = (g.file_id ≡ file_id) × (g.page_id ≡ page_id)

module _ (Io : PageIo) (s s' : BufferPoolState Io.State) (ids : List ℕ) (pool : IsPool s ids) where
  acquire_frame-returned :
      (s1 : BufferPoolState Io.State) (i : ℕ) → acquire_frame Io s ≡ (s1, ok i) → Idle s1 i
  acquire_frame-returned s1 i ran =
      let (s2, r, ids2, j, run, pool2, free, same, yields) = acquire_frame-Acquires Io s ids pool in
      let e = sym run ∙ ran in
      let (here, busy, idle, f, found, saved) = yields i (ap (λ p. p.1) e) in
      rw (← ap (λ p. p.0) e, here) idle

  -- A miss.
  acquired-returned :
      {A B : Type 0} (file_id : ℕ) (call : FileCall Io.State A) (key : A → BufferKey)
      (bytes : A → Bytes) (dirty : Bool) (result : ℕ → A → B) (b : B)
      → (acquire_frame Io >>= λ i. fill i file_id call key bytes dirty (result i)) s ≡ (s', ok b)
      → (i : ℕ) × (a : A) × (result i a ≡ b) × IsPinned s' i (key a)
  acquired-returned {A = A} {B = B} file_id call key bytes dirty result b ran =
      let rest : ℕ → PoolCall Io.State B = λ i. fill i file_id call key bytes dirty (result i) in
      let (i, s1, run1, ran1) = chain_returned (acquire_frame Io) rest s s' b ran in
      let (a, here, pinned) =
        fill-returned i file_id call key bytes dirty (result i) s1 s' b
          (acquire_frame-returned s1 i run1) ran1 in
      (i, a, here, pinned)

  fetch_miss-returned :
      (key : BufferKey) (dirty : Bool) (i : ℕ)
      → fetch_miss Io key dirty s ≡ (s', ok i)
      → IsPinned s' i key
  unfolding read_page_data
  fetch_miss-returned key dirty i ran =
      let (j, bytes, here, pinned) =
        acquired-returned key.file_id (File.read_page Io key.page_id) (λ _. key) (λ b. b) dirty
          (λ i _. i) i ran in
      rw (← here) pinned

  read_frame-returned :
      (key : BufferKey) (i : ℕ)
      → read_frame Io key (s.page_table key) s ≡ (s', ok i)
      → IsPinned s' i key
  read_frame-returned key i ran = elim (Option-cases (s.page_table key)) [
    | inl absent ↦
        fetch_miss-returned key false i (sym (ap (λ o. read_frame Io key o s) absent) ∙ ran)
    | inr (j, e) ↦
        let run = sym (ap (λ o. read_frame Io key o s) e) ∙ ran in
        let (u, s1, run1, ran1) = chain_returned (pin_frame j) (λ _. pure j) s s' i run in
        let pinned = pin_frame-returned j key s s1 (pool.table key j e).1 run1 in
        rw (← ap (λ p. p.0) ran1, ← ok_injective (ap (λ p. p.1) ran1)) pinned
  ]

  write_frame-returned :
      (key : BufferKey) (i : ℕ)
      → write_frame Io key (s.page_table key) s ≡ (s', ok i)
      → IsPinned s' i key
  write_frame-returned key i ran = elim (Option-cases (s.page_table key)) [
    | inl absent ↦
        fetch_miss-returned key true i (sym (ap (λ o. write_frame Io key o s) absent) ∙ ran)
    | inr (j, e) ↦
        let mark : PoolCall Io.State (Unit {0}) = change_frame j (λ f. record f { dirty = true }) in
        let run = sym (ap (λ o. write_frame Io key o s) e) ∙ ran in
        let (u, s1, run1, ran1) = chain_returned (pin_frame j) (λ _. mark >> pure j) s s' i run in
        let (v, s2, run2, ran2) = chain_returned mark (λ _. pure j) s1 s' i ran1 in
        let pinned =
          marked-IsPinned j key s1 s2 (pin_frame-returned j key s s1 (pool.table key j e).1 run1)
            run2 in
        rw (← ap (λ p. p.0) ran2, ← ok_injective (ap (λ p. p.1) ran2)) pinned
  ]

  module _ (file_id page_id : ℕ) (g : BufferGuard) where
    guarded :
        (m : PoolCall Io.State ℕ)
        → ((i : ℕ) (s1 : BufferPoolState Io.State)
            → m s ≡ (s1, ok i)
            → s1 ≡ s'
            → IsPinned s' i (record { file_id = file_id; page_id = page_id }))
        → (m >>= λ i. pure (guard Io (record { file_id = file_id; page_id = page_id }) i)) s
          ≡ (s', ok g)
        → IsFor g file_id page_id × Guarded g s'
    guarded m pinned ran =
        let key : BufferKey = record { file_id = file_id; page_id = page_id } in
        let (i, s1, run1, ran1) = chain_returned m (λ i. pure (guard Io key i)) s s' g ran in
        let here = pinned i s1 run1 (ap (λ p. p.0) ran1) in
        rw (← ok_injective (ap (λ p. p.1) ran1)) ((refl, refl), here)

    pub get_page-returned :
        get_page Io file_id page_id s ≡ (s', ok g) → IsFor g file_id page_id × Guarded g s'
    unfolding get_page
    get_page-returned ran =
        let key : BufferKey = record { file_id = file_id; page_id = page_id } in
        guarded (read_frame Io key (s.page_table key))
          (λ i s1 run same. read_frame-returned key i (run ∙ ap (λ t. (t, ok i)) same)) ran

    pub get_page_mut-returned :
        get_page_mut Io file_id page_id s ≡ (s', ok g) → IsFor g file_id page_id × Guarded g s'
    unfolding get_page_mut
    get_page_mut-returned ran =
        let key : BufferKey = record { file_id = file_id; page_id = page_id } in
        guarded (write_frame Io key (s.page_table key))
          (λ i s1 run same. write_frame-returned key i (run ∙ ap (λ t. (t, ok i)) same)) ran

  pub allocate_page-returned :
      (file_id : ℕ) (g : BufferGuard)
      → allocate_page Io file_id s ≡ (s', ok g)
      → (g.file_id ≡ file_id) × Guarded g s'
  unfolding allocate_page allocate_page_id
  allocate_page-returned file_id g ran =
      let (i, page_id, here, pinned) =
        acquired-returned file_id (File.allocate_page Io)
          (λ page_id. record { file_id = file_id; page_id = page_id }) (λ _. replicate 4092 0) true
          (λ i page_id. guard Io (record { file_id = file_id; page_id = page_id }) i) g ran in
      rw (← here) (refl, pinned)
