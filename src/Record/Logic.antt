-- ===== src/Record/Logic.antt =====
-- `LogicFilter` of storage/record: trees of clauses under AND, OR and NOT.
use text.Mathlib.Text.{◌==◌ as str_eq}
use rs_redbase.Prelude.{
  ℕ, String, Bool, true, false, not as not_bool, length, if◌then◌else◌, Result, ok, err, ◌>>=◌,
  ◌>>◌,
}
use rs_redbase.Prelude.Bytes.{Bytes}
use rs_redbase.Record.Types.{RecordError, invalid_predicate}
use rs_redbase.Record.Clause
use rs_redbase.Record.Clause.{PredicateClause}
use rs_redbase.Record.Compound
use rs_redbase.Record.Compound.{CompoundPredicate}

mutual
  pub data LogicFilter : Type 0 where
    clause : PredicateClause → LogicFilter
    all : CompoundPredicate → LogicFilter
    and or : LogicFilters → LogicFilter
    not : LogicFilter → LogicFilter

  -- `Vec<LogicFilter>`.
  pub data LogicFilters : Type 0 where
    nil : LogicFilters
    cons : LogicFilter → LogicFilters → LogicFilters

-- The constructor functions `LogicFilter::and` and `LogicFilter::or`.
unfoldable pub and_node : LogicFilters → Result RecordError LogicFilter
and_node LogicFilters.nil =
    err (invalid_predicate "logic AND nodes must contain at least one child")
and_node (LogicFilters.cons f fs) = ok (LogicFilter.and (LogicFilters.cons f fs))

unfoldable pub or_node : LogicFilters → Result RecordError LogicFilter
or_node LogicFilters.nil = err (invalid_predicate "logic OR nodes must contain at least one child")
or_node (LogicFilters.cons f fs) = ok (LogicFilter.or (LogicFilters.cons f fs))

abbrev pub empty_node_message : String → String
empty_node_message node_name =
    if str_eq node_name "AND"
    then "logic AND nodes must contain at least one child"
    else if str_eq node_name "OR"
    then "logic OR nodes must contain at least one child"
    else "logic nodes must contain at least one child"

unfoldable mutual
  pub validate_for_record : LogicFilter → ℕ → Result RecordError (Unit {0})
  validate_for_record (LogicFilter.clause c) n = Clause.validate_for_record c n
  validate_for_record (LogicFilter.all p) n = Compound.validate_for_record p n
  validate_for_record (LogicFilter.and fs) n = validate_logic_children fs n "AND"
  validate_for_record (LogicFilter.or fs) n = validate_logic_children fs n "OR"
  validate_for_record (LogicFilter.not f) n = validate_for_record f n

  pub validate_logic_children : LogicFilters → ℕ → String → Result RecordError (Unit {0})
  validate_logic_children LogicFilters.nil n node_name =
      err (invalid_predicate (empty_node_message node_name))
  validate_logic_children (LogicFilters.cons f fs) n node_name =
      validate_for_record f n >> validate_each fs n

  pub validate_each : LogicFilters → ℕ → Result RecordError (Unit {0})
  validate_each LogicFilters.nil n = ok tt
  validate_each (LogicFilters.cons f fs) n = validate_for_record f n >> validate_each fs n

unfoldable mutual
  pub matches : LogicFilter → Bytes → Result RecordError Bool
  matches (LogicFilter.clause c) d =
      validate_for_record (LogicFilter.clause c) (length d) >> Clause.matches c d
  matches (LogicFilter.all p) d =
      validate_for_record (LogicFilter.all p) (length d) >> Compound.matches p d
  matches (LogicFilter.and fs) d =
      validate_for_record (LogicFilter.and fs) (length d) >> match_and fs d
  matches (LogicFilter.or fs) d =
      validate_for_record (LogicFilter.or fs) (length d) >> match_or fs d
  matches (LogicFilter.not f) d =
      validate_for_record (LogicFilter.not f) (length d)
      >> (matches f d >>= λ matched. ok (not_bool matched))

  pub match_and : LogicFilters → Bytes → Result RecordError Bool
  match_and LogicFilters.nil d = ok true
  match_and (LogicFilters.cons f fs) d =
      matches f d >>= λ matched. if matched then match_and fs d else ok false

  pub match_or : LogicFilters → Bytes → Result RecordError Bool
  match_or LogicFilters.nil d = ok false
  match_or (LogicFilters.cons f fs) d =
      matches f d >>= λ matched. if matched then ok true else match_or fs d
