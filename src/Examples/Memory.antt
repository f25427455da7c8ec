-- ===== src/Examples/Memory.antt =====
-- `PageIo` over the bytes of a file in memory.
use rs_redbase.Prelude.{
  ℕ, ◌+◌, ◌-◌, ◌≡◌, refl, ap, ◌++◌, length, take, length-take, length-append, replicate,
  length-replicate, Result, ok, err, arith,
}
use rs_redbase.Prelude.Bytes.{
  Bytes, slice, slice_total, slice_resized, copy_into, copy_into-Written,
}
use rs_redbase.Storage.{IoError, os}
use rs_redbase.Page.Io.{PageIo, IsReliable}

-- The last argument is the outcome of reading the range.
abbrev filled : Bytes → Bytes → Result IoError Bytes → (Bytes × Bytes) × Result IoError (Unit {0})
filled s buf (ok bytes) = ((s, bytes), ok tt)
filled s buf other = ((s, buf), err (os 38))

abbrev resized : ℕ → Bytes → Bytes
resized n s = take n s ++ replicate (n - length s) 0

abbrev stored_as : Bytes → Result IoError Bytes → Bytes × Result IoError (Unit {0})
stored_as s (ok s') = (s', ok tt)
stored_as s other = (s, err (os 28))

-- The bytes of a file in memory. A write past the end fails here.
abbrev pub memory : PageIo
memory = record {
  State = Bytes;
  read_exact_at = λ s offset buf. filled s buf (slice s offset (offset + length buf));
  write_all_at = λ offset buf s. stored_as s (copy_into s offset buf);
  set_len = λ n s. (resized n s, ok tt);
  len = λ s. (s, ok (length s));
  sync_all = λ s. (s, ok tt);
}

length-resized : (n : ℕ) (s : Bytes) → length (resized n s) ≡ n
length-resized n s = omega (
  arith,
  length-append (take n s) (replicate (n - length s) 0),
  length-take n s,
  length-replicate {A = ℕ} (n - length s) 0,
)

pub memory-IsReliable : IsReliable memory
memory-IsReliable = record {
  contents = λ s. s;
  read = λ s offset buf h.
      let (bytes, run, long) =
        slice_total {E = IoError} s offset (offset + length buf) (omega arith) h in
      (s, bytes, ap (filled s buf) run, refl, omega arith, run);
  write = λ s offset buf h.
      let (s', run, w) = copy_into-Written {E = IoError} s offset buf h in
      (s', ap (stored_as s) run, w);
  resize = λ s n. (
    resized n s,
    refl,
    length-resized n s,
    λ b e h k.
        slice_resized s (replicate (n - length s) 0) n b e k h (omega (arith, length-resized n s)),
  );
  measure = λ s. (s, refl, refl);
  sync = λ s. (s, refl, refl);
}
