-- ===== src/Record/Clause.antt =====
-- `PredicateClause` of storage/record: one comparison of a field with a value or another field.
use rs_redbase.Prelude.{
  ℕ, Bool, true, not, ◌||◌, Ordering, ◌==◌, length, if◌then◌else◌, Result, ok, err, ◌>>=◌, ◌>>◌,
}
use rs_redbase.Prelude.Bytes.{Bytes}
use rs_redbase.Record.Types.{
  ScanCompOp, ScanValue, RecordError, invalid_predicate, is_no_op, same_type, compare_ordering,
}
use rs_redbase.Record.Field
use rs_redbase.Record.Field.{
  ScanFieldRef, field_bytes, compare_field_to_value, compare_fields, validate_value_against_field,
}

pub data ScanRhs : Type 0 where
  value : ScanValue → ScanRhs
  field : ScanFieldRef → ScanRhs

pub record PredicateClause : Type 0 where
  pub lhs : ScanFieldRef
  pub comp_op : ScanCompOp
  pub rhs : ScanRhs

abbrev pub field_equals_value : ScanFieldRef → ScanCompOp → ScanValue → PredicateClause
field_equals_value lhs comp_op v = record { lhs = lhs; comp_op = comp_op; rhs = ScanRhs.value v }

abbrev pub field_compares_field : ScanFieldRef → ScanCompOp → ScanFieldRef → PredicateClause
field_compares_field lhs comp_op rhs = record {
  lhs = lhs;
  comp_op = comp_op;
  rhs = ScanRhs.field rhs;
}

-- The match on the right-hand side in `validate_for_record`.
abbrev pub validate_rhs : ScanFieldRef → ScanRhs → ℕ → Result RecordError (Unit {0})
validate_rhs lhs (ScanRhs.value v) record_size = validate_value_against_field lhs v
validate_rhs lhs (ScanRhs.field rhs) record_size = do
  Field.validate_for_record rhs record_size
  if not (same_type lhs.field_type rhs.field_type) || not (lhs.length == rhs.length)
      then err (invalid_predicate "field-to-field comparisons require matching types and lengths")
      else ok tt

unfoldable pub validate_for_record : PredicateClause → ℕ → Result RecordError (Unit {0})
validate_for_record c record_size =
    if is_no_op c.comp_op
    then ok tt
    else do Field.validate_for_record c.lhs record_size; validate_rhs c.lhs c.rhs record_size

-- The match on the right-hand side in `matches`.
abbrev pub order_rhs : Bytes → ScanFieldRef → ScanRhs → Bytes → Result RecordError Ordering
order_rhs lhs lhs_field (ScanRhs.value v) data' = compare_field_to_value lhs lhs_field.field_type v
order_rhs lhs lhs_field (ScanRhs.field rhs) data' = do
  rhs_bytes ← field_bytes data' rhs
  compare_fields lhs lhs_field.field_type rhs_bytes

unfoldable pub matches : PredicateClause → Bytes → Result RecordError Bool
matches c data' = do
  validate_for_record c (length data')
  if is_no_op c.comp_op then ok true else do
    lhs ← field_bytes data' c.lhs
    ordering ← order_rhs lhs c.lhs c.rhs data'
    ok (compare_ordering ordering c.comp_op)
