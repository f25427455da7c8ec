-- ===== src/Query.antt =====
-- The query layer of query/mod.rs: planning and checking requests.
pub mod Types
pub mod Columns
pub mod Typed
pub mod Insert
pub mod Update
pub mod Select
pub mod Checked
