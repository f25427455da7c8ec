-- ===== src/Record/Types.antt =====
-- The data types of storage/record: record ids, scan operators, fields, values and errors.
use rs_redbase.Prelude.{ℕ, String, not, Bool, true, false, Ordering, ltb, if◌then◌else◌, ◌-◌}
use rs_redbase.Prelude.Int.{ℤ, pos, negsuc, compare_ℤ}
use rs_redbase.Prelude.Bytes.{Bytes}
use rs_redbase.Storage.{PageStoreError, BufferPoolError}

pub record Rid : Type 0 where
  pub page_id : ℕ
  pub slot_id : ℕ

pub data ScanCompOp : Type 0 where
  no_op eq ne lt gt le ge : ScanCompOp

pub data ScanFieldType : Type 0 where
  int32 float32 bytes : ScanFieldType

-- An `f32` is its bit pattern, which is all that the program reads of it.
pub data ScanValue : Type 0 where
  int32 : ℤ → ScanValue
  float32 : ℕ → ScanValue
  bytes : Bytes → ScanValue

pub data RecordError : Type 0 where
  page_store : PageStoreError → RecordError
  buffer_pool : BufferPoolError → RecordError
  invalid_record_size record_too_large : ℕ → RecordError
  invalid_predicate : String → RecordError
  predicate_out_of_bounds : ℕ → ℕ → ℕ → RecordError
  invalid_rid empty_slot : Rid → RecordError
  size_mismatch : ℕ → ℕ → RecordError
  corrupted : String → RecordError

abbrev pub is_no_op : ScanCompOp → Bool
is_no_op ScanCompOp.no_op = true
is_no_op _ = false

-- `ScanFieldType`'s derived equality.
abbrev pub same_type : ScanFieldType → ScanFieldType → Bool
same_type ScanFieldType.int32 ScanFieldType.int32 = true
same_type ScanFieldType.float32 ScanFieldType.float32 = true
same_type ScanFieldType.bytes ScanFieldType.bytes = true
same_type _ _ = false

abbrev is_less : Ordering → Bool
is_less o = elim o [ Ordering.lt ↦ true | _ ↦ false ]

abbrev is_equal : Ordering → Bool
is_equal o = elim o [ Ordering.eq ↦ true | _ ↦ false ]

abbrev is_greater : Ordering → Bool
is_greater o = elim o [ Ordering.gt ↦ true | _ ↦ false ]

-- `!=` on orderings is the negation of `==`.
unfoldable pub compare_ordering : Ordering → ScanCompOp → Bool
compare_ordering ordering ScanCompOp.no_op = true
compare_ordering ordering ScanCompOp.eq = is_equal ordering
compare_ordering ordering ScanCompOp.ne = not (is_equal ordering)
compare_ordering ordering ScanCompOp.lt = is_less ordering
compare_ordering ordering ScanCompOp.gt = is_greater ordering
compare_ordering ordering ScanCompOp.le = not (is_greater ordering)
compare_ordering ordering ScanCompOp.ge = not (is_less ordering)

-- `f32::total_cmp`: a pattern with the sign bit orders below the others, and backwards.
abbrev pub total_key : ℕ → ℤ
total_key bits = if ltb bits 2147483648 then pos bits else negsuc (bits - 2147483648)

abbrev pub total_cmp : ℕ → ℕ → Ordering
total_cmp a b = compare_ℤ (total_key a) (total_key b)
