-- ===== src/Record.antt =====
-- The record layer of storage/record.
pub mod Types
pub mod Field
pub mod Clause
pub mod Predicate
pub mod Compound
pub mod Logic
pub mod Meaning
pub mod Layout
pub mod FileHeader
pub mod PageHeader
pub mod Page
pub mod Bitmap
