-- ===== src/Page/File/Open.antt =====
-- `create` and `open` of `PageFile` in storage/page.
use rs_redbase.Prelude.{◌+◌, ◌*◌, false, true, none, ltb, replicate, Result, ok, err, map_err}
use rs_redbase.Prelude.Call.{Call, ◌>>=◌, ◌>>◌, reads, gets, fail_if}
use rs_redbase.Prelude.Bytes.{Bytes}
use rs_redbase.Storage.{IoError, PageStoreError}
use rs_redbase.Page.{page_size, file_header_size}
use rs_redbase.Page.Io.{PageIo}
use rs_redbase.Page.Header
use rs_redbase.Page.File.{PageFile, on_io, flush}

-- A value that is given when a call succeeded.
abbrev given : {E A : Type 0} → A → Result E (Unit {0}) → Result E A
given a (ok u) = ok a
given a (err e) = err e
given a Result.panicked = Result.panicked

module _ (Io : PageIo) where
  -- The state of a new file, before its first flush.
  abbrev pub created : Io.State → PageFile Io.State
  created io = record {
    io = io;
    header = Header.new;
    header_dirty = true;
    loaded_page_id = none;
    loaded_page_dirty = false;
    loaded_page = replicate page_size 0;
  }

  unfoldable pub create : Io.State → Result PageStoreError (PageFile Io.State)
  create io =
      let (f, r) = (on_io (Io.set_len file_header_size) >> flush Io) (created io) in given f r

  -- `?` on a call of `io`, before there is a file.
  abbrev with_io : {A : Type 0} → Call Io.State IoError A → Call Io.State PageStoreError A
  with_io call io = let (io1, r) = call io in (io1, map_err PageStoreError.io r)

  -- `io.read_exact_at(0, &mut header_buf)`.
  abbrev read_header : Call Io.State PageStoreError Bytes
  read_header io =
      let ((io1, buf), r) = Io.read_exact_at io 0 (replicate file_header_size 0) in
      (io1, map_err PageStoreError.io (given buf r))

  unfoldable pub open_file : Call Io.State PageStoreError (PageFile Io.State)
  open_file = do
    len ← with_io Io.len
    fail_if (ltb len file_header_size)
        (PageStoreError.corrupted "file is smaller than the mandatory file header")
    header_buf ← read_header
    header ← reads (λ _. Header.decode header_buf)
    let minimum_len = file_header_size + header.num_pages * page_size
    fail_if (ltb len minimum_len)
        (PageStoreError.corrupted "file is shorter than the number of pages declared in the header")
    gets (λ io. record {
      io = io;
      header = header;
      header_dirty = false;
      loaded_page_id = none;
      loaded_page_dirty = false;
      loaded_page = replicate page_size 0;
    })
