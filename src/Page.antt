-- ===== src/Page.antt =====
-- The page file of storage/page: sizes, the trait `PageIo`, and the headers.
pub mod Io
pub mod Header
pub mod File
use rs_redbase.Prelude.{ℕ}
use rs_redbase.Prelude.Int.{ℤ, negsuc}

abbrev pub page_header_size : ℕ
page_header_size = 4

-- `PAGE_DATA_SIZE` is `Record.Layout`'s `page_data_size`.
abbrev pub page_size : ℕ
page_size = 4096

abbrev pub file_header_size : ℕ
file_header_size = page_size

-- -1 and -2.
abbrev pub free_list_end : ℤ
free_list_end = negsuc 0

abbrev pub page_used : ℤ
page_used = negsuc 1
