-- ===== src/Examples/Files.antt =====
-- A page file in memory: two pages are allocated, one is written and one disposed of, and the file is
-- flushed and opened again.
use rs_redbase.Prelude.{ℕ, ◌≡◌, refl, [], length, replicate, length-replicate, ok, Returns, arith}
use rs_redbase.Prelude.Int.{pos}
use rs_redbase.Prelude.Call.{Runs}
use rs_redbase.Prelude.Bytes.{Bytes}
use rs_redbase.Page.Header.{encode, validate, decode}
use rs_redbase.Page.Header.RoundTrip.{decode-encode_header}
use rs_redbase.Page.File.{PageFile, load_page, read_page, allocate_page, dispose_page, flush}
use rs_redbase.Page.File.Open.{create, open_file}
use rs_redbase.Page.File.Sound.{IsSound}
use rs_redbase.Page.File.Loaded.{Loaded, load_page-Loaded}
use rs_redbase.Page.File.Store.{Store, allocate, Represents}
use rs_redbase.Page.File.Reads.{answer, read_page-answer}
use rs_redbase.Page.File.Writes.{overwrite_page, accepted, overwritten, overwrite_page-overwritten}
use rs_redbase.Page.File.Disposed.{disposed, released, dispose_page-released}
use rs_redbase.Page.File.Allocated.{allocate_page-allocate}
use rs_redbase.Page.File.Saved.{IsSaved, flush-saved}
use rs_redbase.Page.File.Reopened.{no_pages, create-no_pages, open_file-saved}
use rs_redbase.Examples.Memory.{memory, memory-IsReliable}

decode-encode_header_example :
    Returns (encode (record { first_free_page = pos 1; num_pages = 3 })) (λ raw.
      (length raw ≡ 4096) × (decode raw ≡ ok (record { first_free_page = pos 1; num_pages = 3 })))
unfolding validate
decode-encode_header_example =
    decode-encode_header (record { first_free_page = pos 1; num_pages = 3 }) (omega arith)
      (omega arith) refl

create-no_pages_example :
    Returns
      (create memory [])
      (λ f. IsSound memory-IsReliable f × Represents memory-IsReliable f no_pages × IsSaved f)
create-no_pages_example = create-no_pages memory-IsReliable []

-- The file after it was created, and after each allocation.
abbrev file0 : PageFile Bytes
file0 = (create-no_pages memory-IsReliable []).0

sound0 : IsSound memory-IsReliable file0
sound0 = (create-no_pages memory-IsReliable []).2.0

store0 : Represents memory-IsReliable file0 no_pages
store0 = (create-no_pages memory-IsReliable []).2.1

allocate_page-allocate_example : Runs (allocate_page memory) file0 (λ page_id f'.
    (page_id ≡ 0)
    × (IsSound memory-IsReliable f' × Represents memory-IsReliable f' (allocate no_pages).1))
allocate_page-allocate_example =
    allocate_page-allocate memory-IsReliable file0 no_pages sound0 store0 (λ e. omega arith)

abbrev one_page : Store
one_page = (allocate no_pages).1

abbrev first_page : Runs (allocate_page memory) file0 (λ page_id f'.
    (page_id ≡ 0) × (IsSound memory-IsReliable f' × Represents memory-IsReliable f' one_page))
first_page =
    allocate_page-allocate memory-IsReliable file0 no_pages sound0 store0 (λ e. omega arith)

abbrev file1 : PageFile Bytes
file1 = first_page.1

sound1 : IsSound memory-IsReliable file1
sound1 = first_page.3.1.0

store1 : Represents memory-IsReliable file1 one_page
store1 = first_page.3.1.1

load_page-Loaded_example :
    Runs
      (load_page memory 0)
      file1
      (λ _ f'. IsSound memory-IsReliable f' × Loaded memory-IsReliable file1 0 f')
load_page-Loaded_example =
    load_page-Loaded memory-IsReliable file1 0 sound1 (omega (arith, store1.count))

read_page-answer_example :
    (f' : PageFile Bytes) × (read_page memory 0 file1 ≡ (f', answer 0 (one_page.content 0)))
    × (IsSound memory-IsReliable f' × Represents memory-IsReliable f' one_page)
read_page-answer_example = read_page-answer memory-IsReliable file1 one_page 0 sound1 store1

overwrite_page-overwritten_example :
    (f' : PageFile Bytes) × (overwrite_page memory 0 (replicate 4092 7) file1
      ≡ (f', accepted 0 (one_page.content 0)))
    × (IsSound memory-IsReliable f'
        × Represents memory-IsReliable f' (overwritten 0 (replicate 4092 7) one_page))
overwrite_page-overwritten_example =
    overwrite_page-overwritten memory-IsReliable file1 one_page 0 (replicate 4092 7) sound1 store1
      (length-replicate {A = ℕ} 4092 7)

dispose_page-released_example :
    (f' : PageFile Bytes) × (dispose_page memory 0 file1 ≡ (f', disposed 1 0 (one_page.content 0)))
    × (IsSound memory-IsReliable f' × Represents memory-IsReliable f' (released 0 one_page))
dispose_page-released_example =
    dispose_page-released memory-IsReliable file1 one_page 0 sound1 store1 (omega arith)

flush-saved_example :
    Runs
      (flush memory)
      file1
      (λ _ f'. IsSound memory-IsReliable f' × Represents memory-IsReliable f' one_page × IsSaved f')
flush-saved_example = flush-saved memory-IsReliable file1 one_page sound1 store1

abbrev saved1 :
    Runs
      (flush memory)
      file1
      (λ _ f'. IsSound memory-IsReliable f' × Represents memory-IsReliable f' one_page × IsSaved f')
saved1 = flush-saved memory-IsReliable file1 one_page sound1 store1

open_file-saved_example :
    Runs
      (open_file memory)
      saved1.1.io
      (λ g io. IsSound memory-IsReliable g × Represents memory-IsReliable g one_page)
open_file-saved_example =
    open_file-saved memory-IsReliable saved1.1 one_page saved1.3.0 saved1.3.1 saved1.3.2
