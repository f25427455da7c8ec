-- ===== src/Examples/Filters.antt =====
-- Filters over raw records.
use rs_redbase.Prelude.{◌≡◌, ◌⊎◌, [], ◌∷◌, ok, err, true, false}
use rs_redbase.Prelude.Int.{pos}
use rs_redbase.Record.Types.{RecordError, ScanCompOp, ScanValue}
use rs_redbase.Record.Field
use rs_redbase.Record.Clause
use rs_redbase.Record.Logic.{LogicFilter, LogicFilters, validate_for_record, matches}
use rs_redbase.Record.Meaning.{holds}
use rs_redbase.Record.Meaning.Fits.{fits, matches-eq-holds}

-- The second field lies past the end of a five-byte record.
abbrev past_end : LogicFilter
past_end = LogicFilter.or (
    LogicFilters.cons
      (LogicFilter.clause
        (Clause.field_equals_value (Field.int32 0) ScanCompOp.eq (ScanValue.int32 (pos 7))))
      (LogicFilters.cons
        (LogicFilter.clause
          (Clause.field_compares_field (Field.int32 0) ScanCompOp.eq (Field.int32 4)))
        LogicFilters.nil))

matches-eq-holds_example :
    ((fits past_end 5 ≡ true)
      × (matches past_end (7 ∷ 0 ∷ 0 ∷ 0 ∷ 1 ∷ []) ≡ ok (holds past_end (7 ∷ 0 ∷ 0 ∷ 0 ∷ 1 ∷ []))))
    ⊎ ((fits past_end 5 ≡ false)
        × (e : RecordError) × (validate_for_record past_end 5 ≡ err e)
        × (matches past_end (7 ∷ 0 ∷ 0 ∷ 0 ∷ 1 ∷ []) ≡ err e))
matches-eq-holds_example = matches-eq-holds past_end (7 ∷ 0 ∷ 0 ∷ 0 ∷ 1 ∷ [])
