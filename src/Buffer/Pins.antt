-- ===== src/Buffer/Pins.antt =====
-- What the holder of a guard of storage/buffer relies on: its frame keeps the page and the data.
use rs_redbase.Prelude.{
  ℕ, ◌≤◌, ◌≡◌, ◌≢◌, refl, sym, ◌∙◌, ap, inl, inr, true, false, some, ◌==◌, get_elem?, arith,
}
use rs_redbase.Page.File.Represented.{same_or_other}
use rs_redbase.Buffer.{Frame, BufferPoolState}
use rs_redbase.Buffer.Frames.Links.{payload}

module _ {S : Type 0} where
  -- Every pinned frame has the page and the data that it had, and as many pins at least.
  unfoldable pub PinsHold : BufferPoolState S → BufferPoolState S → Type 0
  PinsHold s s' =
      (k : ℕ) (f : Frame)
      → get_elem? s.frames k ≡ some f
      → (f.pin_count == 0) ≡ false
      → (f' : Frame) × (get_elem? s'.frames k ≡ some f')
        × (f'.key ≡ f.key)
        × (f'.bytes ≡ f.bytes)
        × (f.pin_count ≤ f'.pin_count)

  pub PinsHold-payload :
      (s s' : BufferPoolState S)
      → ((k : ℕ) (f : Frame)
          → get_elem? s.frames k ≡ some f
          → (f.pin_count == 0) ≡ false
          → (f' : Frame) × (get_elem? s'.frames k ≡ some f') × (payload f' ≡ payload f))
      → PinsHold s s'
  unfolding PinsHold
  PinsHold-payload s s' same k f e pinned =
      let (f', e', p) = same k f e pinned in
      (f', e', ap (λ q. q.0) p, ap (λ q. q.1) p, omega (arith, ap (λ q. q.3) p))

  pub PinsHold-refl : (s : BufferPoolState S) → PinsHold s s
  PinsHold-refl s = PinsHold-payload s s (λ k f e p. (f, e, refl))

  abbrev pub IsFree : BufferPoolState S → ℕ → Type 0
  IsFree s i = (f : Frame) → get_elem? s.frames i ≡ some f → (f.pin_count == 0) ≡ true

  abbrev pub SameOthers : ℕ → BufferPoolState S → BufferPoolState S → Type 0
  SameOthers i s s' =
      (k : ℕ) (f : Frame)
      → k ≢ i
      → get_elem? s.frames k ≡ some f
      → (f' : Frame) × (get_elem? s'.frames k ≡ some f') × (payload f' ≡ payload f)

  pub PinsHold-others :
      (i : ℕ) (s s' : BufferPoolState S) → IsFree s i → SameOthers i s s' → PinsHold s s'
  PinsHold-others i s s' free same = PinsHold-payload s s' (λ k g found pinned.
      elim (same_or_other k i) [
        | inl here ↦
            let unpinned = free g (ap (get_elem? s.frames) (sym here) ∙ found) in
            absurd (let clash = sym pinned ∙ unpinned in cc)
        | inr other ↦ same k g other found
      ])

  pub PinsHold-trans : (a b c : BufferPoolState S) → PinsHold a b → PinsHold b c → PinsHold a c
  unfolding PinsHold
  PinsHold-trans a b c p q k f e pinned =
      let (f1, e1, key1, bytes1, pins1) = p k f e pinned in
      let (f2, e2, key2, bytes2, pins2) = q k f1 e1 (ground arith) in
      (f2, e2, key2 ∙ key1, bytes2 ∙ bytes1, omega arith)
