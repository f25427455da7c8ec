-- ===== src/Record/Meaning/Fields.antt =====
-- `ScanFieldRef`, `field_bytes` and the comparisons of storage/record, and their meaning.
use rs_redbase.Prelude.{
  ℕ, ◌+◌, ◌-◌, ◌≤◌, ◌≡◌, refl, [], ◌∷◌, arith, length, drop, length-take, length-drop, le→leb, ok,
}
use rs_redbase.Prelude.Bytes.{Bytes, slice, u32_from_le_bytes, i32_from_le_bytes}
use rs_redbase.Prelude.Int.{of_u32}
use rs_redbase.Record.Types.{ScanFieldType, ScanValue, RecordError}
use rs_redbase.Record.Field.{
  ScanFieldRef, check_shape, validate_for_record, field_bytes, compare_field_to_value,
  compare_fields, value_fits,
}
use rs_redbase.Record.Meaning.{word, read_as, field_part, order_values}

pub validate-within :
    (f : ScanFieldRef) (n : ℕ)
    → validate_for_record f n ≡ ok tt
    → (f.offset + f.length ≤ n) × (check_shape f.field_type f.length ≡ ok tt)
unfolding validate_for_record
validate-within f n h = (ground arith, ground arith)

pub length-field_part :
    (f : ScanFieldRef) (d : Bytes)
    → f.offset + f.length ≤ length d
    → length (field_part f d) ≡ f.length
length-field_part f d h =
    omega (arith, length-take f.length (drop f.offset d), length-drop f.offset d)

pub field_bytes-part :
    (f : ScanFieldRef) (d : Bytes)
    → validate_for_record f (length d) ≡ ok tt
    → field_bytes d f ≡ ok (field_part f d)
unfolding field_bytes slice
field_bytes-part f d h =
    let within = (validate-within f (length d) h).0 in
    let width : f.offset + f.length - f.offset ≡ f.length = omega arith in
    rw (
      h,
      le→leb f.offset (f.offset + f.length) (omega arith),
      le→leb (f.offset + f.length) (length d) within,
      width,
    )

u32_word : {E : Type 0} (b : Bytes) → length b ≡ 4 → u32_from_le_bytes {E = E} b ≡ ok (word b)
unfolding u32_from_le_bytes
u32_word [] h = absurd (omega arith)
u32_word (a ∷ []) h = absurd (omega arith)
u32_word (a ∷ b ∷ []) h = absurd (omega arith)
u32_word (a ∷ b ∷ c ∷ []) h = absurd (omega arith)
u32_word (a ∷ b ∷ c ∷ d ∷ []) h = refl
u32_word (a ∷ b ∷ c ∷ d ∷ e ∷ r) h = absurd (omega arith)

i32_word :
    {E : Type 0} (b : Bytes) → length b ≡ 4 → i32_from_le_bytes {E = E} b ≡ ok (of_u32 (word b))
unfolding i32_from_le_bytes
i32_word {E} b h = rw (u32_word {E = E} b h)

pub compare_field_to_value-eq :
    (t : ScanFieldType) (v : ScanValue) (b : Bytes)
    → value_fits t (length b) v ≡ ok tt
    → compare_field_to_value b t v ≡ ok (order_values (read_as t b) v)
unfolding compare_field_to_value
compare_field_to_value-eq ScanFieldType.int32 (ScanValue.int32 a) b h =
    rw (i32_word {E = RecordError} b (ground arith))
compare_field_to_value-eq ScanFieldType.float32 (ScanValue.float32 a) b h =
    rw (u32_word {E = RecordError} b (ground arith))
compare_field_to_value-eq ScanFieldType.bytes (ScanValue.bytes a) b h = refl
compare_field_to_value-eq ScanFieldType.int32 _ b h = cc
compare_field_to_value-eq ScanFieldType.float32 _ b h = cc
compare_field_to_value-eq ScanFieldType.bytes _ b h = cc

pub compare_fields-eq :
    (t : ScanFieldType) (a b : Bytes)
    → check_shape t (length a) ≡ ok tt
    → length a ≡ length b
    → compare_fields a t b ≡ ok (order_values (read_as t a) (read_as t b))
unfolding compare_fields
compare_fields-eq ScanFieldType.int32 a b h k =
    let four : length a ≡ 4 = ground arith in
    rw (i32_word {E = RecordError} a four, i32_word {E = RecordError} b (omega arith))
compare_fields-eq ScanFieldType.float32 a b h k =
    let four : length a ≡ 4 = ground arith in
    rw (u32_word {E = RecordError} a four, u32_word {E = RecordError} b (omega arith))
compare_fields-eq ScanFieldType.bytes a b h k = refl
