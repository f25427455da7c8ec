-- ===== src/Buffer/Started.antt =====
-- A new pool of storage/buffer.
use rs_redbase.Prelude.{
  ℕ, zero, suc, ◌+◌, ◌≤◌, ◌<◌, ◌≡◌, ◌≢◌, refl, sym, ap, inl, inr, some, [], get_elem?, replicate,
  length, length-replicate, arith,
}
use rs_redbase.Page.File.Store.{Listed, Distinct}
use rs_redbase.Page.File.Represented.{All-Listed, same_or_other}
use rs_redbase.Buffer.{BufferPoolState, Frame, empty_frame, count_from, new}
use rs_redbase.Buffer.Frames.Links.{some_or, Segment}
use rs_redbase.Buffer.Steps.{IsPool, IsIdle}

count_from-inside : (first n i : ℕ) → Listed i (count_from first n) → (first ≤ i) × (i < first + n)
count_from-inside first zero i l = absurd l
count_from-inside first (suc n) i (inl same) = (omega arith, omega arith)
count_from-inside first (suc n) i (inr later) =
    let (a, b) = count_from-inside (suc first) n i later in (omega arith, omega arith)

count_from-Distinct : (first n : ℕ) → Distinct (count_from first n)
count_from-Distinct first zero = tt
count_from-Distinct first (suc n) = (
  All-Listed (λ j. j ≢ first) (count_from (suc first) n)
      (λ j l same. let (a, b) = count_from-inside (suc first) n j l in absurd (omega arith)),
  count_from-Distinct (suc first) n,
)

get_elem?-replicate :
    (n i : ℕ) (frame f : Frame) → get_elem? (replicate n frame) i ≡ some f → f ≡ frame
get_elem?-replicate zero i frame f e = absurd cc
get_elem?-replicate (suc n) zero frame f e = sym (ap (some_or frame) e)
get_elem?-replicate (suc n) (suc i) frame f e = get_elem?-replicate n i frame f e

count_from-Listed : (first n i : ℕ) → first ≤ i → i < first + n → Listed i (count_from first n)
count_from-Listed first zero i low high = absurd (omega arith)
count_from-Listed first (suc n) i low high = elim (same_or_other i first) [
  | inl same ↦ inl same
  | inr other ↦ inr (count_from-Listed (suc first) n i (omega (arith, other)) (omega arith))
]

-- Every frame is free, without a page, clean and unpinned.
pub record AreFree {S : Type 0} (capacity : ℕ) (s : BufferPoolState S) : Type 0 where
  pub wide : length s.frames ≡ capacity
  pub free : (i : ℕ) → i < capacity → Listed i s.free_list
  pub idle : (i : ℕ) (f : Frame) → get_elem? s.frames i ≡ some f → IsIdle f

new-AreFree : {S : Type 0} (capacity : ℕ) → AreFree capacity (new {S = S} capacity)
unfolding new
new-AreFree capacity = record {
  wide = length-replicate {A = Frame} capacity empty_frame;
  free = λ i low. count_from-Listed 0 capacity i (omega arith) (omega arith);
  idle = λ i f e.
      let u = get_elem?-replicate capacity i empty_frame f e in
      (ap (λ f. f.key) u, ap (λ f. f.dirty) u, ap (λ f. f.pin_count) u);
}

new-well_formed : {S : Type 0} (capacity : ℕ) → IsPool (new {S = S} capacity) []
unfolding new Segment
new-well_formed {S = S} capacity =
    let blank = get_elem?-replicate capacity in
    record {
      linked = record {
        head = refl;
        tail = refl;
        links = tt;
        distinct = tt;
        loose = λ i f e out.
            let u = blank i empty_frame f e in (ap (λ f. f.prev) u, ap (λ f. f.next) u);
      };
      free_inside = λ i l.
          let (a, b) = count_from-inside 0 capacity i l in
          omega (arith, b, length-replicate {A = Frame} capacity empty_frame);
      free_distinct = count_from-Distinct 0 capacity;
      apart = λ i l none_listed. none_listed;
      free_idle = λ i f l e. (new-AreFree {S = S} capacity).idle i f e;
      table = λ key i e. absurd cc;
    }

-- A new pool has as many frames as its capacity, all of them free, without a page, clean and unpinned,
-- and it is well formed, with no frame in use.
pub new-IsPool :
    {S : Type 0} (capacity : ℕ)
    → IsPool (new {S = S} capacity) [] × AreFree capacity (new {S = S} capacity)
new-IsPool capacity = (new-well_formed capacity, new-AreFree capacity)
