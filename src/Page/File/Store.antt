-- ===== src/Page/File/Store.antt =====
-- What a `PageFile` promises: numbered pages with data, and the free pages in the order in which they
-- are used again.
use rs_redbase.Prelude.{
  ℕ, suc, ◌<◌, ◌≡◌, ◌≢◌, ◌⊎◌, Option, none, some, List, [], ◌∷◌, All, replicate, if◌then◌else◌,
  ◌==◌, ok,
}
use rs_redbase.Prelude.Int.{ℤ, pos}
use rs_redbase.Prelude.Bytes.{Bytes, slice}
use rs_redbase.Storage.{PageStoreError}
use rs_redbase.Page.{page_size, free_list_end}
use rs_redbase.Page.Io.{PageIo, IsReliable}
use rs_redbase.Page.Header.{of_page, used}
use rs_redbase.Page.File.{PageFile}
use rs_redbase.Page.File.Sound.{image}

-- A free page, and a number that is no page's, have no content.
pub record Store : Type 0 where
  pub pages : ℕ
  pub free : List ℕ
  pub content : ℕ → Option Bytes

abbrev pub put : Store → ℕ → Option Bytes → Store
put s id value = record s { content = λ i. if i == id then value else s.content i }

abbrev pub zeros : Bytes
zeros = replicate 4092 0

abbrev pub allocated : Store → List ℕ → ℕ × Store
allocated s [] = (s.pages, put (record s { free = []; pages = suc s.pages }) s.pages (some zeros))
allocated s (id ∷ rest) = (id, put (record s { free = rest }) id (some zeros))

-- The page that was freed last, and else a new one.
abbrev pub allocate : Store → ℕ × Store
allocate s = allocated s s.free

abbrev pub release : ℕ → Store → Store
release id s = put (record s { free = id ∷ s.free }) id none

abbrev pub Listed : ℕ → List ℕ → Type 0
Listed i [] = ⊥
Listed i (j ∷ js) = (i ≡ j) ⊎ Listed i js

abbrev pub Distinct : List ℕ → Type 0
Distinct [] = Unit
Distinct (i ∷ is) = All (λ j. j ≢ i) is × Distinct is

module _ {Io : PageIo} (R : IsReliable Io) where
  -- A page with this word in its header.
  unfoldable pub Marked : PageFile Io.State → ℕ → ℤ → Type 0
  Marked f i word =
      (page : Bytes) × (image R f i ≡ ok page) × (of_page page ≡ ok (record { next_free = word }))

  -- A page in use, with this data.
  unfoldable pub Holds : PageFile Io.State → ℕ → Bytes → Type 0
  Holds f i bytes =
      (page : Bytes) × (image R f i ≡ ok page)
      × (of_page page ≡ ok used)
      × (slice {E = PageStoreError} page 4 page_size ≡ ok bytes)

  -- The free pages, each with the number of the next one in its header.
  unfoldable pub Chain : PageFile Io.State → ℤ → List ℕ → Type 0
  Chain f first [] = first ≡ free_list_end
  Chain f first (id ∷ ids) =
      (first ≡ pos id)
      × (id < f.header.num_pages)
      × (id < 2147483648)
      × ((next : ℤ) × Marked f id next × Chain f next ids)

  pub record Represents (f : PageFile Io.State) (s : Store) : Type 0 where
    pub count : f.header.num_pages ≡ s.pages
    pub chain : Chain f f.header.first_free_page s.free
    pub distinct : Distinct s.free
    pub unused : (i : ℕ) → Listed i s.free → s.content i ≡ none
    pub holds : (i : ℕ) (bytes : Bytes) → s.content i ≡ some bytes → (i < s.pages) × Holds f i bytes
    pub covered : (i : ℕ) → i < s.pages → s.content i ≡ none → Listed i s.free
