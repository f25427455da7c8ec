-- ===== src/Record/Meaning/Fits.antt =====
-- Which filters of storage/record fit records of a length, and that every other is refused.
use rs_redbase.Prelude.{
  ℕ, ◌+◌, ◌≡◌, ◌⊎◌, inl, inr, refl, Bool, true, false, ◌&&◌, ◌||◌, not, List, [], ◌∷◌, ltb, leb,
  ◌==◌, length, arith, if◌then◌else◌, Result, ok, err, ◌>>◌, Bool-cases,
}
use rs_redbase.Prelude.Bytes.{Bytes}
use rs_redbase.Record.Types.{ScanFieldType, ScanValue, RecordError, is_no_op, same_type}
use rs_redbase.Record.Field
use rs_redbase.Record.Field.{ScanFieldRef, check_shape, value_fits, validate_value_against_field}
use rs_redbase.Record.Clause
use rs_redbase.Record.Clause.{ScanRhs, PredicateClause, validate_rhs}
use rs_redbase.Record.Compound
use rs_redbase.Record.Compound.{validate_clauses}
use rs_redbase.Record.Logic.{LogicFilter, LogicFilters, validate_for_record, validate_each, matches}
use rs_redbase.Record.Meaning.{holds}
use rs_redbase.Record.Meaning.Filters.{logic-eq}

-- A number has 4 bytes, and a field of bytes has one at least.
abbrev has_width : ScanFieldType → ℕ → Bool
has_width ScanFieldType.int32 len = len == 4
has_width ScanFieldType.float32 len = len == 4
has_width ScanFieldType.bytes len = not (len == 0)

-- The field ends within the record, and its end within 64 bits.
abbrev field_fits : ScanFieldRef → ℕ → Bool
field_fits f n =
    ltb (f.offset + f.length) 18446744073709551616
    && (leb (f.offset + f.length) n && has_width f.field_type f.length)

-- The value has the field's type, and as many bytes.
abbrev value_suits : ScanFieldType → ℕ → ScanValue → Bool
value_suits ScanFieldType.int32 len (ScanValue.int32 v) = len == 4
value_suits ScanFieldType.float32 len (ScanValue.float32 v) = len == 4
value_suits ScanFieldType.bytes len (ScanValue.bytes v) = length v == len
value_suits _ len v = false

abbrev rhs_fits : ScanFieldRef → ScanRhs → ℕ → Bool
rhs_fits lhs (ScanRhs.value v) n = value_suits lhs.field_type lhs.length v
rhs_fits lhs (ScanRhs.field rhs) n =
    field_fits rhs n && (same_type lhs.field_type rhs.field_type && (lhs.length == rhs.length))

abbrev clause_fits : PredicateClause → ℕ → Bool
clause_fits c n = is_no_op c.comp_op || (field_fits c.lhs n && rhs_fits c.lhs c.rhs n)

abbrev clauses_fit : List PredicateClause → ℕ → Bool
clauses_fit [] n = true
clauses_fit (c ∷ cs) n = clause_fits c n && clauses_fit cs n

abbrev is_empty : LogicFilters → Bool
is_empty LogicFilters.nil = true
is_empty (LogicFilters.cons f fs) = false

-- Every clause fits records of a length, and no AND or OR is empty.
unfoldable mutual
  pub fits : LogicFilter → ℕ → Bool
  fits (LogicFilter.clause c) n = clause_fits c n
  fits (LogicFilter.all p) n = clauses_fit p.clauses n
  fits (LogicFilter.and fs) n = not (is_empty fs) && all_fit fs n
  fits (LogicFilter.or fs) n = not (is_empty fs) && all_fit fs n
  fits (LogicFilter.not f) n = fits f n

  all_fit : LogicFilters → ℕ → Bool
  all_fit LogicFilters.nil n = true
  all_fit (LogicFilters.cons f fs) n = fits f n && all_fit fs n

-- A check of what a Boolean says: it passes or gives an error, and never panics.
abbrev Checks : Bool → Result RecordError (Unit {0}) → Type 0
Checks true r = r ≡ ok tt
Checks false r = (e : RecordError) × (r ≡ err e)

Checks-then :
    (a b : Bool) (m n : Result RecordError (Unit {0}))
    → Checks a m
    → Checks b n
    → Checks (a && b) (m >> n)
Checks-then true b m n passed later = rw passed later
Checks-then false b m n (e, failed) later = (e, rw failed refl)

Checks-if : (b : Bool) (e : RecordError) → Checks b (if b then ok tt else err e)
Checks-if true e = refl
Checks-if false e = (e, refl)

Checks-unless : (b : Bool) (e : RecordError) → Checks (not b) (if b then err e else ok tt)
Checks-unless true e = (e, refl)
Checks-unless false e = refl

check_shape-Checks : (t : ScanFieldType) (len : ℕ) → Checks (has_width t len) (check_shape t len)
check_shape-Checks ScanFieldType.int32 len = Checks-if (len == 4) _
check_shape-Checks ScanFieldType.float32 len = Checks-if (len == 4) _
check_shape-Checks ScanFieldType.bytes len = Checks-unless (len == 0) _

value_fits-Checks :
    (t : ScanFieldType) (len : ℕ) (v : ScanValue)
    → Checks (value_suits t len v) (value_fits t len v)
value_fits-Checks ScanFieldType.int32 len (ScanValue.int32 v) = Checks-if (len == 4) _
value_fits-Checks ScanFieldType.float32 len (ScanValue.float32 v) = Checks-if (len == 4) _
value_fits-Checks ScanFieldType.bytes len (ScanValue.bytes v) = Checks-if (length v == len) _
value_fits-Checks ScanFieldType.int32 len _ = (_, refl)
value_fits-Checks ScanFieldType.float32 len _ = (_, refl)
value_fits-Checks ScanFieldType.bytes len _ = (_, refl)

within-Checks :
    (n end : ℕ) (shape : Bool) (e : RecordError) (rest : Result RecordError (Unit {0}))
    → Checks shape rest
    → Checks (leb end n && shape) (if ltb n end then err e else rest)
within-Checks n end shape e rest h = elim (Bool-cases (ltb n end)) [
  | inl over ↦ let no : leb end n ≡ false = ground arith in rw (over, no) (e, refl)
  | inr inside ↦ let yes : leb end n ≡ true = ground arith in rw (inside, yes) h
]

field-Checks : (f : ScanFieldRef) (n : ℕ) → Checks (field_fits f n) (Field.validate_for_record f n)
unfolding Field.validate_for_record
field-Checks f n = elim (Bool-cases (ltb (f.offset + f.length) 18446744073709551616)) [
  | inl small ↦ rw small (
      within-Checks n (f.offset + f.length) (has_width f.field_type f.length) _ _
        (check_shape-Checks f.field_type f.length))
  | inr over ↦ rw over (_, refl)
]

same-Checks :
    (a b : Bool) (e : RecordError) → Checks (a && b) (if not a || not b then err e else ok tt)
same-Checks true true e = refl
same-Checks true false e = (e, refl)
same-Checks false b e = (e, refl)

rhs-Checks :
    (lhs : ScanFieldRef) (rhs : ScanRhs) (n : ℕ)
    → Checks (rhs_fits lhs rhs n) (validate_rhs lhs rhs n)
unfolding validate_value_against_field
rhs-Checks lhs (ScanRhs.value v) n = value_fits-Checks lhs.field_type lhs.length v
rhs-Checks lhs (ScanRhs.field rhs) n =
    Checks-then (field_fits rhs n) _ (Field.validate_for_record rhs n) _ (field-Checks rhs n)
      (same-Checks (same_type lhs.field_type rhs.field_type) (lhs.length == rhs.length) _)

clause-Checks :
    (c : PredicateClause) (n : ℕ) → Checks (clause_fits c n) (Clause.validate_for_record c n)
unfolding Clause.validate_for_record
clause-Checks c n = elim (Bool-cases (is_no_op c.comp_op)) [
  | inl skipped ↦ rw skipped refl
  | inr checked ↦ rw checked (
      Checks-then (field_fits c.lhs n) (rhs_fits c.lhs c.rhs n) (Field.validate_for_record c.lhs n)
        (validate_rhs c.lhs c.rhs n) (field-Checks c.lhs n) (rhs-Checks c.lhs c.rhs n))
]

clauses-Checks :
    (cs : List PredicateClause) (n : ℕ) → Checks (clauses_fit cs n) (validate_clauses cs n)
unfolding validate_clauses
clauses-Checks [] n = refl
clauses-Checks (c ∷ cs) n =
    Checks-then (clause_fits c n) (clauses_fit cs n) (Clause.validate_for_record c n)
      (validate_clauses cs n) (clause-Checks c n) (clauses-Checks cs n)

mutual
  unfolding validate_for_record fits Compound.validate_for_record

  fits-Checks : (f : LogicFilter) (n : ℕ) → Checks (fits f n) (validate_for_record f n)
  fits-Checks (LogicFilter.clause c) n = clause-Checks c n
  fits-Checks (LogicFilter.all p) n = clauses-Checks p.clauses n
  fits-Checks (LogicFilter.and LogicFilters.nil) n = (_, refl)
  fits-Checks (LogicFilter.and (LogicFilters.cons f fs)) n =
      Checks-then (fits f n) (all_fit fs n) (validate_for_record f n) (validate_each fs n)
        (fits-Checks f n) (all_fit-Checks fs n)
  fits-Checks (LogicFilter.or LogicFilters.nil) n = (_, refl)
  fits-Checks (LogicFilter.or (LogicFilters.cons f fs)) n =
      Checks-then (fits f n) (all_fit fs n) (validate_for_record f n) (validate_each fs n)
        (fits-Checks f n) (all_fit-Checks fs n)
  fits-Checks (LogicFilter.not f) n = fits-Checks f n

  all_fit-Checks : (fs : LogicFilters) (n : ℕ) → Checks (all_fit fs n) (validate_each fs n)
  all_fit-Checks LogicFilters.nil n = refl
  all_fit-Checks (LogicFilters.cons f fs) n =
      Checks-then (fits f n) (all_fit fs n) (validate_for_record f n) (validate_each fs n)
        (fits-Checks f n) (all_fit-Checks fs n)

answered :
    (b : Bool) (f : LogicFilter) (d : Bytes)
    → Checks b (validate_for_record f (length d))
    → ((b ≡ true) × (matches f d ≡ ok (holds f d)))
      ⊎ ((b ≡ false)
          × (e : RecordError) × (validate_for_record f (length d) ≡ err e)
          × (matches f d ≡ err e))
answered true f d passed = inl (refl, rw (logic-eq f d, passed) refl)
answered false f d (e, failed) = inr (refl, e, failed, rw (logic-eq f d, failed) refl)

-- Evaluating a filter on a record never panics. When every clause of the filter fits the record (its
-- fields end within it, with the widths of their types, and its value or second field suits) and no
-- AND or OR is empty, the result is the filter's meaning: checking again at each node, reading fields
-- and stopping early change nothing. Otherwise it is the error that validating the filter gives.
pub matches-eq-holds :
    (f : LogicFilter) (d : Bytes)
    → ((fits f (length d) ≡ true) × (matches f d ≡ ok (holds f d)))
      ⊎ ((fits f (length d) ≡ false)
          × (e : RecordError) × (validate_for_record f (length d) ≡ err e)
          × (matches f d ≡ err e))
matches-eq-holds f d = answered (fits f (length d)) f d (fits-Checks f (length d))
