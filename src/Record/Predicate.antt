-- ===== src/Record/Predicate.antt =====
-- `ScanPredicate` of storage/record: the older single comparison, with its optional value.
use rs_redbase.Prelude.{
  ℕ, ◌+◌, Bool, true, Option, none, some, ltb, ◌==◌, length, if◌then◌else◌, Result, ok, err, ok_or,
  ◌>>=◌, ◌>>◌,
}
use rs_redbase.Prelude.Int.{ℤ}
use rs_redbase.Prelude.Bytes.{Bytes, slice}
use rs_redbase.Storage.{checked_add}
use rs_redbase.Record.Types.{
  ScanCompOp, ScanFieldType, ScanValue, RecordError, invalid_predicate, predicate_out_of_bounds,
  is_no_op, compare_ordering,
}
use rs_redbase.Record.Field.{compare_field_to_value}

pub record ScanPredicate : Type 0 where
  pub offset : ℕ
  pub length : ℕ
  pub field_type : ScanFieldType
  pub comp_op : ScanCompOp
  pub value : Option ScanValue

abbrev pub always_true : ScanPredicate
always_true = record {
  offset = 0;
  length = 0;
  field_type = ScanFieldType.bytes;
  comp_op = ScanCompOp.no_op;
  value = none;
}

abbrev pub int32 : ℕ → ScanCompOp → ℤ → ScanPredicate
int32 offset comp_op v = record {
  offset = offset;
  length = 4;
  field_type = ScanFieldType.int32;
  comp_op = comp_op;
  value = some (ScanValue.int32 v);
}

abbrev pub float32 : ℕ → ScanCompOp → ℕ → ScanPredicate
float32 offset comp_op v = record {
  offset = offset;
  length = 4;
  field_type = ScanFieldType.float32;
  comp_op = comp_op;
  value = some (ScanValue.float32 v);
}

abbrev pub bytes : ℕ → ℕ → ScanCompOp → Bytes → ScanPredicate
bytes offset length comp_op v = record {
  offset = offset;
  length = length;
  field_type = ScanFieldType.bytes;
  comp_op = comp_op;
  value = some (ScanValue.bytes v);
}

-- The match on the type, the length and the value, in the order of its arms.
abbrev pub check_value : ScanFieldType → ℕ → Option ScanValue → Result RecordError (Unit {0})
check_value ScanFieldType.int32 len none =
    err (invalid_predicate "non-NO_OP predicates require a right-hand value")
check_value ScanFieldType.float32 len none =
    err (invalid_predicate "non-NO_OP predicates require a right-hand value")
check_value ScanFieldType.int32 len (some (ScanValue.int32 _)) =
    if len == 4
    then ok tt
    else err (invalid_predicate "int32 predicates must use a 4-byte Int32 value")
check_value ScanFieldType.float32 len (some (ScanValue.float32 _)) =
    if len == 4
    then ok tt
    else err (invalid_predicate "float32 predicates must use a 4-byte Float32 value")
check_value ScanFieldType.bytes len none =
    if len == 0
    then err (invalid_predicate "byte predicates must compare at least one byte")
    else err (invalid_predicate "non-NO_OP predicates require a right-hand value")
check_value ScanFieldType.bytes len (some (ScanValue.bytes v)) =
    if len == 0
    then err (invalid_predicate "byte predicates must compare at least one byte")
    else if length v == len
    then ok tt
    else err (invalid_predicate "byte predicate value length must match the declared field length")
check_value ScanFieldType.int32 _ (some _) =
    err (invalid_predicate "int32 predicates must use a 4-byte Int32 value")
check_value ScanFieldType.float32 _ (some _) =
    err (invalid_predicate "float32 predicates must use a 4-byte Float32 value")
check_value ScanFieldType.bytes len (some _) =
    if len == 0
    then err (invalid_predicate "byte predicates must compare at least one byte")
    else err (invalid_predicate "byte predicate value length must match the declared field length")

unfoldable pub validate_for_record : ScanPredicate → ℕ → Result RecordError (Unit {0})
validate_for_record p record_size = if is_no_op p.comp_op then ok tt else do
  end ← ok_or (checked_add p.offset p.length) (invalid_predicate "predicate offset overflows")
  if ltb record_size end
      then err (predicate_out_of_bounds p.offset p.length record_size)
      else check_value p.field_type p.length p.value

-- The code repeats the match of `compare_field_to_value` here, message included.
unfoldable pub matches : ScanPredicate → Bytes → Result RecordError Bool
matches p data' = do
  validate_for_record p (length data')
  if is_no_op p.comp_op then ok true else do
    field ← slice data' p.offset (p.offset + p.length)
    v ← ok_or p.value (invalid_predicate "non-NO_OP predicates require a right-hand value")
    ordering ← compare_field_to_value field p.field_type v
    ok (compare_ordering ordering p.comp_op)
