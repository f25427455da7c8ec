-- ===== src/Table/Types.antt =====
-- The data types of table/mod.rs: column types, schemas, values, rows, expressions and errors.
use rs_redbase.Prelude.{ℕ, String, List, Ordering}
use rs_redbase.Prelude.Int.{ℤ, compare_ℤ}
use rs_redbase.Prelude.Bytes.{compare_bytes}
use rs_redbase.Prelude.Text.{Text}
use rs_redbase.Storage.{IoError}
use rs_redbase.Record.Types.{ScanCompOp, RecordError, total_cmp}
use rs_redbase.Index.{IndexError}

pub data ColumnType : Type 0 where
  int32 float32 : ColumnType
  char : ℕ → ColumnType

abbrev pub fixed_len : ColumnType → ℕ
fixed_len ColumnType.int32 = 4
fixed_len ColumnType.float32 = 4
fixed_len (ColumnType.char len) = len

pub record ColumnSchema : Type 0 where
  pub name : Text
  pub column_type : ColumnType

pub record TableSchema : Type 0 where
  pub name : Text
  pub columns : List ColumnSchema

-- An `f32` is its bit pattern.
pub data Value : Type 0 where
  int32 : ℤ → Value
  float32 : ℕ → Value
  char : Text → Value

abbrev pub column_kind_name : ColumnType → String
column_kind_name ColumnType.int32 = "Int32"
column_kind_name ColumnType.float32 = "Float32"
column_kind_name (ColumnType.char _) = "Char"

abbrev pub value_kind_name : Value → String
value_kind_name (Value.int32 _) = "Int32"
value_kind_name (Value.float32 _) = "Float32"
value_kind_name (Value.char _) = "Char"

pub record Row : Type 0 where
  pub values : List Value

mutual
  pub data Expr : Type 0 where
    cmp_value : Text → ScanCompOp → Value → Expr
    cmp_columns : Text → ScanCompOp → Text → Expr
    and or : Exprs → Expr
    not : Expr → Expr

  -- `Vec<Expr>`.
  pub data Exprs : Type 0 where
    nil : Exprs
    cons : Expr → Exprs → Exprs

pub data TableError : Type 0 where
  io_error : IoError → TableError
  index_error : IndexError → TableError
  record_error : RecordError → TableError
  invalid_name : Text → TableError
  invalid_schema : String → TableError
  duplicate_table duplicate_column table_not_found column_not_found : Text → TableError
  value_count_mismatch : ℕ → ℕ → TableError
  value_type_mismatch : Text → String → String → TableError
  catalog_corrupted : String → TableError

-- `compare_values` of query/mod.rs: values of two kinds compare equal.
unfoldable pub compare_values : Value → Value → Ordering
compare_values (Value.int32 left) (Value.int32 right) = compare_ℤ left right
compare_values (Value.float32 left) (Value.float32 right) = total_cmp left right
compare_values (Value.char left) (Value.char right) = compare_bytes left right
compare_values _ _ = Ordering.eq
