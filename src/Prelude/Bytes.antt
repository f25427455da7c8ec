-- ===== src/Prelude/Bytes.antt =====
-- Byte slices as lists of numbers: little-endian words, slicing, `copy_from_slice`, `fill`, the
-- order of slices, and text as its UTF-8 bytes.
mod Words
mod Slices
mod Compare
unfoldable pub use Words.*
unfoldable pub use Slices.*
unfoldable pub use Slices.Disjoint.*
unfoldable pub use Compare.*
