-- ===== src/Page/File/Saved.antt =====
-- `flush` of storage/page.
use rs_redbase.Prelude.{
  ℕ, ◌+◌, ◌≡◌, refl, ◌∙◌, ap, inl, inr, true, false, none, List, [], ◌∷◌, leb, if◌then◌else◌,
  length, ok, Bool-cases, arith,
}
use rs_redbase.Prelude.Call.{Runs, pure}
use rs_redbase.Prelude.Bytes.{Bytes, slice, Written}
use rs_redbase.Storage.{IoError}
use rs_redbase.Page.{page_size, file_header_size}
use rs_redbase.Page.Io.{PageIo, IsReliable}
use rs_redbase.Page.Header.{encode, validate}
use rs_redbase.Page.Header.RoundTrip.{decode-encode_header}
use rs_redbase.Page.File.{
  PageFile, is_loaded, unsaved, flush_loaded_page, write_header, flush_header, flush,
}
use rs_redbase.Page.File.Sound.{page_start, page_of, stored, image, IsSound, Kept}
use rs_redbase.Page.File.Flushed.{flush_loaded_page-Flushed}
use rs_redbase.Page.File.Loaded.{Kept-refl}
use rs_redbase.Page.File.Store.{Store, Chain, Represents}
use rs_redbase.Page.File.Represented.{Chain-range, Represents_kept}

-- Nothing is left to write.
pub record IsSaved {S : Type 0} (f : PageFile S) : Type 0 where
  pub header_clean : f.header_dirty ≡ false
  pub page_clean : unsaved f ≡ none

write_header-run :
    (Io : PageIo) (f : PageFile Io.State) (raw : Bytes) (io1 : Io.State)
    → f.header_dirty ≡ true
    → encode f.header ≡ ok raw
    → Io.write_all_at 0 raw f.io ≡ (io1, ok tt)
    → flush_header Io f ≡ (record f { io = io1; header_dirty = false }, ok tt)
unfolding flush_header
write_header-run Io f raw io1 dirty encoded run =
    ap (λ b. (if b then write_header Io else pure tt) f) dirty ∙ (rw (encoded, run) refl)

keep_header-run :
    (Io : PageIo) (f : PageFile Io.State) → f.header_dirty ≡ false → flush_header Io f ≡ (f, ok tt)
unfolding flush_header
keep_header-run Io f clean = ap (λ b. (if b then write_header Io else pure tt) f) clean

module _ {Io : PageIo} (R : IsReliable Io) where
  -- A header at the head of a chain can be read back.
  pub Chain-valid :
      (f : PageFile Io.State) (ids : List ℕ)
      → Chain R f f.header.first_free_page ids
      → validate f.header ≡ ok tt
  unfolding Chain validate
  Chain-valid f [] e = rw e refl
  Chain-valid f (id ∷ ids) (e, inside, small, rest) =
      let below : leb f.header.num_pages id ≡ false = ground arith in rw (e, below) refl

  -- The same file, after a call that left its contents as they were.
  module _ (f : PageFile Io.State) (io1 : Io.State) (same : R.contents io1 ≡ R.contents f.io) where
    moved-Kept : Kept R f (record f { io = io1 })
    unfolding image stored
    moved-Kept = record {
      header = refl;
      images = λ i h.
          ap (λ c. if is_loaded f.loaded_page_id i then ok f.loaded_page else page_of c i) same;
    }

    moved-IsSound : IsSound R f → IsSound R (record f { io = io1 })
    unfolding stored
    moved-IsSound sound = record {
      few = sound.few;
      long = omega (arith, sound.long, ap length same);
      wide = sound.wide;
      inside = sound.inside;
      clean = λ i e h. ap (λ c. page_of c i) same ∙ sound.clean i e h;
      synced = λ h.
          let (raw, encoded, front) = sound.synced h in
          (raw, encoded, ap (λ c. slice {E = IoError} c 0 file_header_size) same ∙ front);
    }

  -- The file after its header was written.
  module _ (f : PageFile Io.State) (sound : IsSound R f) (raw : Bytes) (io1 : Io.State)
      (encoded : encode f.header ≡ ok raw) (wide : length raw ≡ 4096)
      (w : Written IoError (R.contents f.io) 0 raw (R.contents io1)) where
    abbrev headed : PageFile Io.State
    headed = record f { io = io1; header_dirty = false }

    headed-stored : (i : ℕ) → stored R headed i ≡ stored R f i
    unfolding stored
    headed-stored i = w.after (page_start i) (page_start i + page_size) (omega arith)

    headed-Kept : Kept R f headed
    unfolding image
    headed-Kept = record {
      header = refl;
      images = λ i h.
          ap (λ r. if is_loaded f.loaded_page_id i then ok f.loaded_page else r) (headed-stored i);
    }

    headed-IsSound : IsSound R headed
    headed-IsSound = record {
      few = sound.few;
      long = omega (arith, sound.long, w.wide);
      wide = sound.wide;
      inside = sound.inside;
      clean = λ i e h. headed-stored i ∙ sound.clean i e h;
      synced = λ h. (
        raw,
        encoded,
        ap (λ n. slice {E = IoError} (R.contents io1) 0 n)
              (let e : 4096 ≡ 0 + length raw = omega arith in e)
            ∙ w.here,
      );
    }

  flush_header-saved :
      (f : PageFile Io.State) (s : Store)
      → IsSound R f
      → Represents R f s
      → unsaved f ≡ none
      → Runs (flush_header Io) f (λ _ f'. IsSound R f' × Kept R f f' × IsSaved f')
  unfolding unsaved
  flush_header-saved f s sound r saved = elim (Bool-cases f.header_dirty) [
    | inl dirty ↦
        let range = Chain-range R f f.header.first_free_page s.free r.chain in
        let (raw, encoded, (wide, back)) =
          decode-encode_header f.header range sound.few (Chain-valid f s.free r.chain) in
        let (io1, run, w) = R.write f.io 0 raw (omega (arith, sound.long)) in
        (
          tt,
          headed f sound raw io1 encoded wide w,
          write_header-run Io f raw io1 dirty encoded run,
          (
            headed-IsSound f sound raw io1 encoded wide w,
            headed-Kept f sound raw io1 encoded wide w,
            record { header_clean = refl; page_clean = saved },
          ),
        )
    | inr clean ↦ (
      tt,
      f,
      keep_header-run Io f clean,
      (sound, Kept-refl R f, record { header_clean = clean; page_clean = saved }),
    )
  ]

  flush-run :
      (f f1 f2 : PageFile Io.State) (io3 : Io.State)
      → flush_loaded_page Io f ≡ (f1, ok tt)
      → flush_header Io f1 ≡ (f2, ok tt)
      → Io.sync_all f2.io ≡ (io3, ok tt)
      → flush Io f ≡ (record f2 { io = io3 }, ok tt)
  unfolding flush
  flush-run f f1 f2 io3 pages header synced = rw (pages, header, synced) refl

  -- Flushing writes all there is to write, and keeps the store.
  pub flush-saved :
      (f : PageFile Io.State) (s : Store)
      → IsSound R f
      → Represents R f s
      → Runs (flush Io) f (λ _ f'. IsSound R f' × Represents R f' s × IsSaved f')
  unfolding unsaved
  flush-saved f s sound r =
      let (u, f1, run1, (sound1, fl)) = flush_loaded_page-Flushed R f sound in
      let r1 = Represents_kept R f f1 s fl.kept r in
      let (v, f2, run2, (sound2, kept, saved)) = flush_header-saved f1 s sound1 r1 fl.saved in
      let (io3, run3, same) = R.sync f2.io in
      (
        tt,
        record f2 { io = io3 },
        flush-run f f1 f2 io3 run1 run2 run3,
        (
          moved-IsSound f2 io3 same sound2,
          Represents_kept R f2 _ s (moved-Kept f2 io3 same) (Represents_kept R f1 f2 s kept r1),
          record { header_clean = saved.header_clean; page_clean = saved.page_clean },
        ),
      )
