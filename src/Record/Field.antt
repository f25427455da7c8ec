-- ===== src/Record/Field.antt =====
-- `ScanFieldRef` and the helpers of storage/record that read one field of a record.
use rs_redbase.Prelude.{
  ℕ, ◌+◌, Ordering, ltb, ◌==◌, length, if◌then◌else◌, Result, ok, err, ok_or, ◌>>=◌, ◌>>◌,
}
use rs_redbase.Prelude.Int.{compare_ℤ}
use rs_redbase.Prelude.Bytes.{Bytes, slice, i32_from_le_bytes, u32_from_le_bytes, compare_bytes}
use rs_redbase.Storage.{checked_add}
use rs_redbase.Record.Types.{
  ScanFieldType, ScanValue, RecordError, invalid_predicate, predicate_out_of_bounds, total_cmp,
}

pub record ScanFieldRef : Type 0 where
  pub offset : ℕ
  pub length : ℕ
  pub field_type : ScanFieldType

abbrev pub int32 : ℕ → ScanFieldRef
int32 offset = record { offset = offset; length = 4; field_type = ScanFieldType.int32 }

abbrev pub float32 : ℕ → ScanFieldRef
float32 offset = record { offset = offset; length = 4; field_type = ScanFieldType.float32 }

abbrev pub bytes : ℕ → ℕ → ScanFieldRef
bytes offset length = record { offset = offset; length = length; field_type = ScanFieldType.bytes }

-- The match on the type and the length.
abbrev pub check_shape : ScanFieldType → ℕ → Result RecordError (Unit {0})
check_shape ScanFieldType.int32 len =
    if len == 4 then ok tt else err (invalid_predicate "int32 fields must be exactly 4 bytes wide")
check_shape ScanFieldType.float32 len =
    if len == 4
    then ok tt
    else err (invalid_predicate "float32 fields must be exactly 4 bytes wide")
check_shape ScanFieldType.bytes len =
    if len == 0 then err (invalid_predicate "byte fields must span at least one byte") else ok tt

unfoldable pub validate_for_record : ScanFieldRef → ℕ → Result RecordError (Unit {0})
validate_for_record field record_size = do
  end ← ok_or (checked_add field.offset field.length) (invalid_predicate "field offset overflows")
  if ltb record_size end
      then err (predicate_out_of_bounds field.offset field.length record_size)
      else check_shape field.field_type field.length

unfoldable pub field_bytes : Bytes → ScanFieldRef → Result RecordError Bytes
field_bytes data' field = do
  validate_for_record field (length data')
  slice data' field.offset (field.offset + field.length)

unfoldable pub compare_field_to_value :
    Bytes → ScanFieldType → ScanValue → Result RecordError Ordering
compare_field_to_value field ScanFieldType.int32 (ScanValue.int32 rhs) = do
  lhs ← i32_from_le_bytes field
  ok (compare_ℤ lhs rhs)
compare_field_to_value field ScanFieldType.float32 (ScanValue.float32 rhs) = do
  lhs ← u32_from_le_bytes field
  ok (total_cmp lhs rhs)
compare_field_to_value field ScanFieldType.bytes (ScanValue.bytes rhs) =
    ok (compare_bytes field rhs)
compare_field_to_value field _ _ =
    err (invalid_predicate "predicate field type does not match the right-hand value type")

unfoldable pub compare_fields : Bytes → ScanFieldType → Bytes → Result RecordError Ordering
compare_fields lhs ScanFieldType.int32 rhs = do
  l ← i32_from_le_bytes lhs
  r ← i32_from_le_bytes rhs
  ok (compare_ℤ l r)
compare_fields lhs ScanFieldType.float32 rhs = do
  l ← u32_from_le_bytes lhs
  r ← u32_from_le_bytes rhs
  ok (total_cmp l r)
compare_fields lhs ScanFieldType.bytes rhs = ok (compare_bytes lhs rhs)

abbrev pub value_fits : ScanFieldType → ℕ → ScanValue → Result RecordError (Unit {0})
value_fits ScanFieldType.int32 len (ScanValue.int32 _) =
    if len == 4
    then ok tt
    else err (invalid_predicate "int32 clauses must compare against a 4-byte Int32 value")
value_fits ScanFieldType.float32 len (ScanValue.float32 _) =
    if len == 4
    then ok tt
    else err (invalid_predicate "float32 clauses must compare against a 4-byte Float32 value")
value_fits ScanFieldType.bytes len (ScanValue.bytes value) =
    if length value == len
    then ok tt
    else err (invalid_predicate "byte clause value length must match the declared field length")
value_fits ScanFieldType.int32 _ _ =
    err (invalid_predicate "int32 clauses must compare against a 4-byte Int32 value")
value_fits ScanFieldType.float32 _ _ =
    err (invalid_predicate "float32 clauses must compare against a 4-byte Float32 value")
value_fits ScanFieldType.bytes _ _ =
    err (invalid_predicate "byte clause value length must match the declared field length")

unfoldable pub validate_value_against_field :
    ScanFieldRef → ScanValue → Result RecordError (Unit {0})
validate_value_against_field field value = value_fits field.field_type field.length value
