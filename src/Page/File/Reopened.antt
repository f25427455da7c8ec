-- ===== src/Page/File/Reopened.antt =====
-- `create` and `open` of storage/page.
use rs_redbase.Prelude.{
  ℕ, ◌+◌, ◌≡◌, refl, sym, ◌∙◌, ap, false, none, [], ltb, length, replicate, length-replicate, ok,
  ok_injective, Returns, arith,
}
use rs_redbase.Prelude.Call.{Runs}
use rs_redbase.Prelude.Bytes.{Bytes, slice}
use rs_redbase.Storage.{IoError}
use rs_redbase.Page.{page_size, file_header_size}
use rs_redbase.Page.Io.{PageIo, IsReliable}
use rs_redbase.Page.Header.{FileHeader, decode, new}
use rs_redbase.Page.Header.RoundTrip.{decode-encode_header}
use rs_redbase.Page.File.{PageFile, flush}
use rs_redbase.Page.File.Open.{created, create, open_file}
use rs_redbase.Page.File.Sound.{page_start, stored, IsSound, Kept, image_of_other, stored_of_saved}
use rs_redbase.Page.File.Store.{Store, Chain, Represents}
use rs_redbase.Page.File.Represented.{Chain-range, Represents_kept}
use rs_redbase.Page.File.Saved.{IsSaved, Chain-valid, flush-saved}

-- The state of a file that was just opened.
abbrev opened : {S : Type 0} → S → FileHeader → PageFile S
opened io header = record {
  io = io;
  header = header;
  header_dirty = false;
  loaded_page_id = none;
  loaded_page_dirty = false;
  loaded_page = replicate page_size 0;
}

open_file-run :
    (Io : PageIo) (io io1 io2 : Io.State) (len : ℕ) (buf : Bytes) (header : FileHeader)
    → Io.len io ≡ (io1, ok len)
    → ltb len file_header_size ≡ false
    → Io.read_exact_at io1 0 (replicate file_header_size 0) ≡ ((io2, buf), ok tt)
    → decode buf ≡ ok header
    → ltb len (page_start header.num_pages) ≡ false
    → open_file Io io ≡ (io2, ok (opened io2 header))
unfolding open_file
open_file-run Io io io1 io2 len buf header measured wide read decoded long =
    rw (measured, wide, read, decoded, long) refl

create-run :
    (Io : PageIo) (io io1 : Io.State) (f : PageFile Io.State)
    → Io.set_len file_header_size io ≡ (io1, ok tt)
    → flush Io (created Io io1) ≡ (f, ok tt)
    → create Io io ≡ ok f
unfolding create
create-run Io io io1 f sized flushed = rw (sized, flushed) refl

abbrev pub no_pages : Store
no_pages = record { pages = 0; free = []; content = λ i. none }

module _ {Io : PageIo} (R : IsReliable Io) where
  -- A file with nothing left to write, opened again.
  module _ (f : PageFile Io.State) (sound : IsSound R f) (saved : IsSaved f) (io2 : Io.State)
      (same : R.contents io2 ≡ R.contents f.io) where
    opened-Kept : Kept R f (opened io2 f.header)
    unfolding stored
    opened-Kept = record {
      header = refl;
      images = λ i h.
          image_of_other R (opened io2 f.header) i refl
          ∙ ap (λ c. slice c (page_start i) (page_start i + page_size)) same
          ∙ stored_of_saved R f sound saved.page_clean i;
    }

    opened-IsSound : IsSound R (opened io2 f.header)
    opened-IsSound = record {
      few = sound.few;
      long = omega (arith, sound.long, ap length same);
      wide = length-replicate {A = ℕ} page_size 0;
      inside = λ i e. absurd cc;
      clean = λ i e h. absurd cc;
      synced = λ h.
          let (raw, encoded, front) = sound.synced saved.header_clean in
          (raw, encoded, ap (λ c. slice {E = IoError} c 0 file_header_size) same ∙ front);
    }

  -- Opening what a flush left gives a file with the same header and the same pages.
  pub open_file-saved :
      (f : PageFile Io.State) (s : Store)
      → IsSound R f
      → Represents R f s
      → IsSaved f
      → Runs (open_file Io) f.io (λ g io. IsSound R g × Represents R g s)
  open_file-saved f s sound r saved =
      let long = sound.long in
      let (io1, measured, same1) = R.measure f.io in
      let blank = length-replicate {A = ℕ} file_header_size 0 in
      let (io2, buf, read, same2, wide, front) =
        R.read io1 0 (replicate file_header_size 0) (omega (arith, ap length same1)) in
      let (raw, encoded, stored_raw) = sound.synced saved.header_clean in
      let whole : 0 + length (replicate {A = ℕ} file_header_size 0) ≡ 4096 = omega arith in
      let same_raw : raw ≡ buf = ok_injective (
        sym stored_raw
        ∙ ap (λ n. slice (R.contents f.io) 0 n) (sym whole)
        ∙ ap (λ c. slice c 0 (0 + length (replicate {A = ℕ} file_header_size 0))) (sym same1)
        ∙ front) in
      let range = Chain-range R f f.header.first_free_page s.free r.chain in
      let (raw', encoded', (wide', back)) =
        decode-encode_header f.header range sound.few (Chain-valid R f s.free r.chain) in
      let same_raw' : raw' ≡ buf = ok_injective (sym encoded' ∙ encoded) ∙ same_raw in
      let same = same2 ∙ same1 in
      (
        opened io2 f.header,
        io2,
        open_file-run Io f.io io1 io2 (length (R.contents f.io)) buf f.header measured
            (ground arith) read (ap decode (sym same_raw') ∙ back) (ground arith),
        (
          opened-IsSound f sound saved io2 same,
          Represents_kept R f (opened io2 f.header) s (opened-Kept f sound saved io2 same) r,
        ),
      )

  created-IsSound :
      (io : Io.State) → length (R.contents io) ≡ file_header_size → IsSound R (created Io io)
  unfolding new
  created-IsSound io wide = record {
    few = omega arith;
    long = omega (arith, wide);
    wide = length-replicate {A = ℕ} page_size 0;
    inside = λ i e. absurd cc;
    clean = λ i e h. absurd cc;
    synced = λ h. absurd cc;
  }

  created-Represents : (io : Io.State) → Represents R (created Io io) no_pages
  unfolding Chain new
  created-Represents io = record {
    count = refl;
    chain = refl;
    distinct = tt;
    unused = λ i l. refl;
    holds = λ i bytes e. absurd cc;
    covered = λ i h e. absurd (omega arith);
  }

  -- A new file has no pages and is written.
  pub create-no_pages :
      (io : Io.State)
      → Returns (create Io io) (λ f. IsSound R f × Represents R f no_pages × IsSaved f)
  create-no_pages io =
      let (io1, sized, wide, before) = R.resize io file_header_size in
      let (u, f, run, post) =
        flush-saved R (created Io io1) no_pages (created-IsSound io1 wide)
          (created-Represents io1) in
      (f, create-run Io io io1 f sized run, post)
