-- ===== src/Record/Meaning/Clauses.antt =====
-- `PredicateClause` and `CompoundPredicate` of storage/record, and their meaning.
use rs_redbase.Prelude.{
  Ordering, false, sym, ◌≡◌, refl, arith, ℕ, length, Result, ok, ◌>>=◌, ◌>>◌, Bool, Bool-cases, inl,
  inr, true, ◌∙◌,
}
use rs_redbase.Prelude.Bytes.{Bytes}
use rs_redbase.Record.Types.{RecordError, ScanCompOp, is_no_op, compare_ordering}
use rs_redbase.Record.Field
use rs_redbase.Record.Field.{ScanFieldRef, field_bytes, value_fits, validate_value_against_field}
use rs_redbase.Record.Clause.{
  PredicateClause, ScanRhs, validate_rhs, validate_for_record, matches, order_rhs,
}
use rs_redbase.Record.Meaning.{clause_holds, field_part, field_value, order_values, rhs_value}
use rs_redbase.Record.Meaning.Fields.{
  validate-within, length-field_part, field_bytes-part, compare_field_to_value-eq,
  compare_fields-eq,
}

-- What runs behind a validation may assume that it passed.
pub after_validation {ℓ} :
    {E : Type 0} {A : Type ℓ} (m : Result E (Unit {0})) (rest : Result E A) (a : A)
    → (m ≡ ok tt → rest ≡ ok a)
    → (m >> rest) ≡ (m >>= λ _. ok a)
after_validation (ok u) rest a h = h refl
after_validation (Result.err e) rest a h = refl
after_validation Result.panicked rest a h = refl

order_rhs-eq :
    (lhs : ScanFieldRef) (rhs : ScanRhs) (d : Bytes)
    → Field.validate_for_record lhs (length d) ≡ ok tt
    → validate_rhs lhs rhs (length d) ≡ ok tt
    → order_rhs (field_part lhs d) lhs rhs d
      ≡ ok (order_values (field_value lhs d) (rhs_value rhs d))
unfolding validate_value_against_field
order_rhs-eq lhs (ScanRhs.value v) d h k =
    let within = (validate-within lhs (length d) h).0 in
    compare_field_to_value-eq lhs.field_type v (field_part lhs d)
      (rw (length-field_part lhs d within) k)
order_rhs-eq lhs (ScanRhs.field rhs) d h k =
    let left = validate-within lhs (length d) h in
    let e : Field.validate_for_record rhs (length d) ≡ ok tt = ground arith in
    let right = validate-within rhs (length d) e in
    let same : lhs.field_type ≡ rhs.field_type = ground arith in
    let wide : lhs.length ≡ rhs.length = ground arith in
    rw (field_bytes-part rhs d e) (
      compare_fields-eq lhs.field_type (field_part lhs d) (field_part rhs d)
        (rw (length-field_part lhs d left.0) left.1)
        (omega (arith, length-field_part lhs d left.0, length-field_part rhs d right.0))
      ∙ rw same)

no_op_holds : (o : Ordering) (op : ScanCompOp) → is_no_op op ≡ true → compare_ordering o op ≡ true
unfolding compare_ordering
no_op_holds o op h = ground arith

validate_parts :
    (c : PredicateClause) (n : ℕ)
    → validate_for_record c n ≡ ok tt
    → is_no_op c.comp_op ≡ false
    → (Field.validate_for_record c.lhs n ≡ ok tt) × (validate_rhs c.lhs c.rhs n ≡ ok tt)
unfolding validate_for_record
validate_parts c n h k = (ground arith, ground arith)

matches_validated :
    (c : PredicateClause) (d : Bytes)
    → validate_for_record c (length d) ≡ ok tt
    → matches c d ≡ ok (clause_holds c d)
unfolding matches clause_holds
matches_validated c d h = elim (Bool-cases (is_no_op c.comp_op)) [
  | inl skip ↦ rw (h, skip, no_op_holds _ c.comp_op skip)
  | inr compares ↦
      let parts = validate_parts c (length d) h compares in
      rw (h, compares, field_bytes-part c.lhs d parts.0, order_rhs-eq c.lhs c.rhs d parts.0 parts.1)
]

matches_guarded :
    (c : PredicateClause) (d : Bytes) (rest : Result RecordError Bool)
    → (validate_for_record c (length d) >> rest) ≡ matches c d
    → matches c d ≡ (validate_for_record c (length d) >>= λ _. ok (clause_holds c d))
matches_guarded c d rest e =
    sym e
    ∙ after_validation (validate_for_record c (length d)) rest (clause_holds c d)
        (λ h. sym (rw h at (sym e)) ∙ matches_validated c d h)

pub matches-eq :
    (c : PredicateClause) (d : Bytes)
    → matches c d ≡ (validate_for_record c (length d) >>= λ _. ok (clause_holds c d))
unfolding matches
matches-eq c d = matches_guarded c d _ refl
