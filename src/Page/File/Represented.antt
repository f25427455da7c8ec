-- ===== src/Page/File/Represented.antt =====
-- How the abstract store of a `PageFile` follows changes of its pages.
use rs_redbase.Prelude.{
  ℕ, ◌≤◌, ◌<◌, ◌≡◌, ◌≢◌, refl, sym, ◌∙◌, ap, ◌⊎◌, inl, inr, false, Option, none, some, List, [],
  ◌∷◌, All, ◌==◌, ==_refl, ==_iff, Bool-cases, arith,
}
use rs_redbase.Prelude.Int.{ℤ, eqb_ℤ, IsI32}
use rs_redbase.Prelude.Bytes.{Bytes}
use rs_redbase.Page.{page_used}
use rs_redbase.Page.Io.{PageIo, IsReliable}
use rs_redbase.Page.File.{PageFile}
use rs_redbase.Page.File.Sound.{image, Kept}
use rs_redbase.Page.File.Store.{Store, put, Listed, Marked, Holds, Chain, Represents}

pub put_here : (s : Store) (id : ℕ) (value : Option Bytes) → (put s id value).content id ≡ value
put_here s id value = rw (==_refl id) refl

pub put_other :
    (s : Store) (id : ℕ) (value : Option Bytes) (i : ℕ)
    → i ≢ id
    → (put s id value).content i ≡ s.content i
put_other s id value i other = let differ : i == id ≡ false = ground arith in rw differ refl

pub same_or_other : (i id : ℕ) → (i ≡ id) ⊎ (i ≢ id)
same_or_other i id = elim (Bool-cases (i == id)) [
  | inl same ↦ inl ((==_iff i id).0 same)
  | inr differ ↦ inr (λ same. absurd (ground arith))
]

-- What has no content after new content was put had none before.
pub put_free :
    (s : Store) (id : ℕ) (bytes : Bytes) (i : ℕ)
    → (put s id (some bytes)).content i ≡ none
    → (i ≢ id) × (s.content i ≡ none)
put_free s id bytes i free = elim (same_or_other i id) [
  | inr other ↦ (other, sym (put_other s id (some bytes) i other) ∙ free)
  | inl same ↦
      let held =
        sym (put_here s id (some bytes)) ∙ ap (put s id (some bytes)).content (sym same) ∙ free in
      absurd cc
]

pub Listed-All : (P : ℕ → Type 0) (i : ℕ) (ids : List ℕ) → Listed i ids → All P ids → P i
Listed-All P i [] l all = absurd l
Listed-All P i (j ∷ ids) (inl same) all = rw same all.0
Listed-All P i (j ∷ ids) (inr later) all = Listed-All P i ids later all.1

pub All-Listed : (P : ℕ → Type 0) (ids : List ℕ) → ((i : ℕ) → Listed i ids → P i) → All P ids
All-Listed P [] h = tt
All-Listed P (j ∷ ids) h = (h j (inl refl), All-Listed P ids (λ i l. h i (inr l)))

module _ {Io : PageIo} (R : IsReliable Io) where
  pub Represents_as :
      (f : PageFile Io.State) {s s' : Store} → s ≡ s' → Represents R f s → Represents R f s'
  Represents_as f e r = rw (← e) r

  pub Marked-same :
      (f f' : PageFile Io.State) (i : ℕ) (word : ℤ)
      → image R f' i ≡ image R f i
      → Marked R f i word
      → Marked R f' i word
  unfolding Marked
  Marked-same f f' i word same (page, read, head) = (page, same ∙ read, head)

  pub Holds_same :
      (f f' : PageFile Io.State) (i : ℕ) (bytes : Bytes)
      → image R f' i ≡ image R f i
      → Holds R f i bytes
      → Holds R f' i bytes
  unfolding Holds
  Holds_same f f' i bytes same (page, read, head, rest) = (page, same ∙ read, head, rest)

  pub Chain-from :
      (f : PageFile Io.State) (ids : List ℕ) {first first' : ℤ}
      → first ≡ first'
      → Chain R f first ids
      → Chain R f first' ids
  Chain-from f ids e chain = rw (← e) chain

  -- A chain stays when its pages do.
  pub Chain-same :
      (f f' : PageFile Io.State) (first : ℤ) (ids : List ℕ)
      → f.header.num_pages ≤ f'.header.num_pages
      → ((i : ℕ) → Listed i ids → i < f.header.num_pages → image R f' i ≡ image R f i)
      → Chain R f first ids
      → Chain R f' first ids
  unfolding Chain
  Chain-same f f' first [] more same e = e
  Chain-same f f' first (id ∷ ids) more same (e, inside, small, (next, mark, rest)) = (
    e,
    omega arith,
    small,
    (
      next,
      Marked-same f f' id next (same id (inl refl) inside) mark,
      Chain-same f f' next ids more (λ i l h. same i (inr l) h) rest,
    ),
  )

  -- The listed pages exist.
  pub Chain-inside :
      (f : PageFile Io.State) (first : ℤ) (ids : List ℕ)
      → Chain R f first ids
      → All (λ i. i < f.header.num_pages) ids
  unfolding Chain
  Chain-inside f first [] e = tt
  Chain-inside f first (id ∷ ids) (e, inside, small, (next, mark, rest)) =
      (inside, Chain-inside f next ids rest)

  pub Represents_kept :
      (f f' : PageFile Io.State) (s : Store) → Kept R f f' → Represents R f s → Represents R f' s
  Represents_kept f f' s kept r =
      let pages : f'.header.num_pages ≡ f.header.num_pages = ap (λ h. h.num_pages) kept.header in
      record {
        count = pages ∙ r.count;
        chain = Chain-from f' s.free (ap (λ h. h.first_free_page) (sym kept.header)) (
            Chain-same f f' f.header.first_free_page s.free (omega arith) (λ i l h. kept.images i h)
              r.chain);
        distinct = r.distinct;
        unused = r.unused;
        holds = λ i bytes e.
            let (inside, held) = r.holds i bytes e in
            (inside, Holds_same f f' i bytes (kept.images i (omega (arith, r.count))) held);
        covered = r.covered;
      }

  Chain-unused :
      (f : PageFile Io.State) (first : ℤ) (ids : List ℕ)
      → Chain R f first ids
      → eqb_ℤ first page_used ≡ false
  unfolding Chain
  Chain-unused f first [] e = rw e refl
  Chain-unused f first (id ∷ ids) (e, inside, small, rest) = rw e refl

  -- The head of a chain can be stored in a header.
  pub Chain-range :
      (f : PageFile Io.State) (first : ℤ) (ids : List ℕ) → Chain R f first ids → IsI32 first
  unfolding Chain
  Chain-range f first [] e = rw e (omega arith)
  Chain-range f first (id ∷ ids) (e, inside, small, rest) = rw e small

  -- The header of a listed page is not a used page's.
  pub Chain-Marked :
      (f : PageFile Io.State) (first : ℤ) (ids : List ℕ) (i : ℕ)
      → Chain R f first ids
      → Listed i ids
      → (word : ℤ) × Marked R f i word × (eqb_ℤ word page_used ≡ false)
  unfolding Chain
  Chain-Marked f first [] i e l = absurd l
  Chain-Marked f first (id ∷ ids) i (e, inside, small, (next, mark, rest)) (inl same) =
      (next, rw same mark, Chain-unused f next ids rest)
  Chain-Marked f first (id ∷ ids) i (e, inside, small, (next, mark, rest)) (inr later) =
      Chain-Marked f next ids i rest later

  -- A listed page has no content, so a page with content is on no chain.
  pub not-Listed :
      (f : PageFile Io.State) (s : Store) (id : ℕ) (bytes : Bytes)
      → Represents R f s
      → s.content id ≡ some bytes
      → (i : ℕ) → Listed i s.free
      → i ≢ id
  not-Listed f s id bytes r e i l =
      λ same. absurd (let h = r.unused i l in let k = ap s.content same in cc)

  -- One page got new content, or none, and the others are as before.
  pub holds_put :
      (f f' : PageFile Io.State) (s : Store) (id n : ℕ) (value : Option Bytes)
      → Represents R f s
      → s.pages ≤ n
      → ((i : ℕ) → i ≢ id → i < f.header.num_pages → image R f' i ≡ image R f i)
      → ((b : Bytes) → value ≡ some b → (id < n) × Holds R f' id b)
      → (i : ℕ) (b : Bytes) → (put s id value).content i ≡ some b
      → (i < n) × Holds R f' i b
  holds_put f f' s id n value r more others held i b e = elim (same_or_other i id) [
    | inr other ↦
        let (within, held') = r.holds i b (sym (put_other s id value i other) ∙ e) in
        (omega arith, Holds_same f f' i b (others i other (omega (arith, r.count))) held')
    | inl same ↦
        let here =
          held b (sym (put_here s id value) ∙ ap (put s id value).content (sym same) ∙ e) in
        (omega (arith, here.0), rw same here.1)
  ]
