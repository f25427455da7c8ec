-- ===== src/Index.antt =====
-- The data types of storage/index.
pub mod Lookup
use rs_redbase.Prelude.{String}
use rs_redbase.Prelude.Int.{ℤ}
use rs_redbase.Prelude.Text.{Text}
use rs_redbase.Storage.{IoError}
use rs_redbase.Record.Types.{Rid}

pub data IndexKeyType : Type 0 where
  int32 : IndexKeyType

pub record IndexMeta : Type 0 where
  pub name : Text
  pub table : Text
  pub column : Text
  pub key_type : IndexKeyType

pub record IndexEntry : Type 0 where
  pub key : ℤ
  pub rid : Rid

pub data IndexError : Type 0 where
  io : IoError → IndexError
  duplicate_index index_not_found : Text → IndexError
  unsupported_key_type : String → IndexError
  corrupted : String → IndexError
