-- ===== src/Table.antt =====
-- The table layer of table/mod.rs.
pub mod Types
pub mod Schema
pub mod Codec
pub mod Compile
