-- ===== src/Record/Meaning.antt =====
-- What a filter means: a total Boolean of the record's bytes, with no validation and no errors.
-- `LogicFilter::matches` of storage/record is proved to compute it in the modules below.
pub mod Fields
pub mod Clauses
pub mod Filters
pub mod Fits
use rs_redbase.Prelude.{
  ℕ, ◌+◌, ◌*◌, Bool, true, false, not, ◌&&◌, ◌||◌, List, [], ◌∷◌, Ordering, get_or, take, drop,
}
use rs_redbase.Prelude.Int.{of_u32, compare_ℤ}
use rs_redbase.Prelude.Bytes.{Bytes, compare_bytes}
use rs_redbase.Record.Types.{ScanFieldType, ScanValue, total_cmp, compare_ordering}
use rs_redbase.Record.Field.{ScanFieldRef}
use rs_redbase.Record.Clause.{ScanRhs, PredicateClause}
use rs_redbase.Record.Compound.{CompoundPredicate}
use rs_redbase.Record.Logic.{LogicFilter, LogicFilters}

-- The little-endian number in the first four bytes.
abbrev pub word : Bytes → ℕ
word b = get_or b 0 0 + 256 * get_or b 1 0 + 65536 * get_or b 2 0 + 16777216 * get_or b 3 0

abbrev pub read_as : ScanFieldType → Bytes → ScanValue
read_as ScanFieldType.int32 b = ScanValue.int32 (of_u32 (word b))
read_as ScanFieldType.float32 b = ScanValue.float32 (word b)
read_as ScanFieldType.bytes b = ScanValue.bytes b

-- The bytes of a field, and the value that they stand for.
abbrev pub field_part : ScanFieldRef → Bytes → Bytes
field_part f d = take f.length (drop f.offset d)

abbrev pub field_value : ScanFieldRef → Bytes → ScanValue
field_value f d = read_as f.field_type (field_part f d)

abbrev pub order_values : ScanValue → ScanValue → Ordering
order_values (ScanValue.int32 a) (ScanValue.int32 b) = compare_ℤ a b
order_values (ScanValue.float32 a) (ScanValue.float32 b) = total_cmp a b
order_values (ScanValue.bytes a) (ScanValue.bytes b) = compare_bytes a b
order_values _ _ = Ordering.eq

abbrev pub rhs_value : ScanRhs → Bytes → ScanValue
rhs_value (ScanRhs.value v) d = v
rhs_value (ScanRhs.field f) d = field_value f d

unfoldable pub clause_holds : PredicateClause → Bytes → Bool
clause_holds c d =
    compare_ordering (order_values (field_value c.lhs d) (rhs_value c.rhs d)) c.comp_op

unfoldable pub clauses_hold : List PredicateClause → Bytes → Bool
clauses_hold [] d = true
clauses_hold (c ∷ cs) d = clause_holds c d && clauses_hold cs d

unfoldable mutual
  pub holds : LogicFilter → Bytes → Bool
  holds (LogicFilter.clause c) d = clause_holds c d
  holds (LogicFilter.all p) d = clauses_hold p.clauses d
  holds (LogicFilter.and fs) d = all_hold fs d
  holds (LogicFilter.or fs) d = any_holds fs d
  holds (LogicFilter.not f) d = not (holds f d)

  pub all_hold : LogicFilters → Bytes → Bool
  all_hold LogicFilters.nil d = true
  all_hold (LogicFilters.cons f fs) d = holds f d && all_hold fs d

  pub any_holds : LogicFilters → Bytes → Bool
  any_holds LogicFilters.nil d = false
  any_holds (LogicFilters.cons f fs) d = holds f d || any_holds fs d
