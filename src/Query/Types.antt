-- ===== src/Query/Types.antt =====
-- The data types of query/mod.rs: requests, plans and errors.
use rs_redbase.Prelude.{ℕ, String, List, Option}
use rs_redbase.Prelude.Text.{Text}
use rs_redbase.Table.Types.{ColumnSchema, Value, Expr, TableError}

pub data QueryError : Type 0 where
  table_error : TableError → QueryError
  unknown_table duplicate_index unknown_index : Text → QueryError
  unsupported_index_column_type : Text → Text → String → QueryError
  unknown_column duplicate_update_column duplicate_order_column : Text → Text → QueryError
  duplicate_request_column missing_request_column : Text → Text → QueryError
  invalid_limit : Text → ℕ → QueryError
  empty_assignments : Text → QueryError
  value_count_mismatch : Text → ℕ → ℕ → QueryError
  value_type_mismatch : Text → Text → String → String → QueryError

pub record NamedValue : Type 0 where
  pub column : Text
  pub value : Value

pub data InsertInput : Type 0 where
  full_row : List Value → InsertInput
  named : List NamedValue → InsertInput

pub record Assignment : Type 0 where
  pub column : Text
  pub value : Value

pub data Projection : Type 0 where
  all : Projection
  columns : List Text → Projection

pub data SortDirection : Type 0 where
  asc desc : SortDirection

pub record OrderBy : Type 0 where
  pub column : Text
  pub direction : SortDirection

pub record ExtendedSelectRequest : Type 0 where
  pub table : Text
  pub filter : Option Expr
  pub projection : Projection
  pub order_by : List OrderBy
  pub limit : Option ℕ

pub record UpdateRequest : Type 0 where
  pub table : Text
  pub assignments : List Assignment
  pub filter : Option Expr

pub record DeleteRequest : Type 0 where
  pub table : Text
  pub filter : Option Expr

pub record ProjectionPlan : Type 0 where
  pub columns : List ColumnSchema
  pub indices : List ℕ

pub record OrderKeyPlan : Type 0 where
  pub index : ℕ
  pub direction : SortDirection

pub record SelectPlan : Type 0 where
  pub projection : ProjectionPlan
  pub order_by : List OrderKeyPlan
  pub limit : Option ℕ

pub record NormalizedAssignment : Type 0 where
  pub index : ℕ
  pub column : Text
  pub value : Value

pub record UpdatePlan : Type 0 where
  pub assignments : List NormalizedAssignment
