-- ===== src/Lib.antt =====
-- Verification of rs-redbase, a teaching database kernel in Rust.
--
-- The program is layered: a page file (src/storage/page) under a buffer pool (src/storage/buffer),
-- fixed-length records with filters over their bytes (src/storage/record), text index files
-- (src/storage/index), tables with a schema, a catalog and a row codec (src/table), and a query
-- engine that plans and checks requests (src/query). A query names columns; the table layer compiles
-- its expression to a filter over byte offsets, and the record layer evaluates the filter on the
-- bytes of each record.
--
-- Files and what they model:
--   Prelude, Prelude/*     lists, results, i32, byte slices and text as Rust's library has them
--   Prelude/Call           calls that change a state and may fail, with the state that an error leaves
--   Storage                error types of src/storage/page and src/storage/buffer, checked_add
--   Page/*                 src/storage/page/mod.rs: Io (the trait PageIo, and its laws for a file on
--                          which no call fails), Header (FileHeader, PageHeader), File (PageFile)
--                          with File/Open (create, open)
--   Page/File/Store        the abstract store: numbered pages with data, and the free pages in the
--                          order of their reuse; Page/File/Sound what makes a PageFile well formed;
--                          the other files of Page/File relate an operation to the store
--   Buffer, Buffer/Frames, Buffer/Pool
--                          src/storage/buffer/mod.rs: the state of the pool; the list of the frames
--                          and their pins; the operations of BufferPoolState and BufferPool
--   Buffer/Frames/*        the list as a sequence of frame numbers, and the search for a victim
--   Buffer/Steps and the other files of Buffer
--                          when a pool is well formed, and what an operation leaves of it, however it
--                          ends
--   Record/*               src/storage/record/mod.rs: Types (Rid, operators, values, errors), Field
--                          (ScanFieldRef, field_bytes, comparisons), Clause (PredicateClause),
--                          Predicate (ScanPredicate), Compound, Logic (LogicFilter)
--   Record/Meaning, below  what a filter means, and which filters fit records of a length
--   Record/Layout          compute_slots_per_page, record_range and the range checks of RecordFile
--   Record/Bitmap          slot_is_free, set_slot_free, find_first_free_slot
--   Record/FileHeader      RecordFileHeader
--   Record/PageHeader      RecordPageHeader, read_page_header
--   Record/Page            initialize_page and what RecordFile's insert (take_slot), get (get_slot),
--                          update (update_slot) and delete (free_slot) do with the bytes of a page,
--                          between its fetch from the buffer pool and its release
--   Index                  the data types of src/storage/index/mod.rs; Index/Lookup the search of
--                          lookup_eq
--   Table/*                src/table/mod.rs: Types, Schema (compile_schema, SchemaLayout), Codec
--                          (encode_row, decode_record), Compile (compile_expr, scan_value) with
--                          Compile/Eval (what an expression says of a row)
--   Query/*                src/query/mod.rs: Types, Columns (column checks), Insert, Update, Select
--                          (plans, ordering, limit, projection, the end of execute_select), Checked
--                          (column checks and compile_expr), Typed (rows of a table's types)
--   Examples/*             runs on small inputs, and each theorem at an input
--
-- A function of the source is a definition of the same name. `Result` has Ok, Err and a third case,
-- a panic of an `expect`, an index or a slice, so that a theorem can say that there is none. An
-- `i32` is an integer with its range stated where it matters, an `f32` is its bit pattern, ordered
-- as `total_cmp` orders it, a `String` is its UTF-8 bytes, `usize` has 64 bits. Loops are recursions
-- on their lists, or on the number of rounds that are left. The search for a frame to evict has as
-- many rounds as there are frames, and a search that needed more would panic. `sort_by` is an insertion
-- sort on rows whose values at each key are of one kind, where every stable sort returns the same rows,
-- and a panic on others, where the comparison is no order. An addition that overflows a `u32`, as of
-- `pin_count`, is a panic, as in a build that checks for it.
--
-- Not modelled: record files, index files, the catalog and the query engine's calls of them, beyond
-- the functions above; DiskPageIo, PageManager and directory operations of the standard library,
-- Display and Error implementations, and the locks around the buffer pool.
pub mod Prelude
pub mod Storage
pub mod Page
pub mod Buffer
pub mod Record
pub mod Index
pub mod Table
pub mod Query
mod Examples
