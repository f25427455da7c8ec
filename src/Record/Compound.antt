-- ===== src/Record/Compound.antt =====
-- `CompoundPredicate` of storage/record: a non-empty conjunction of clauses.
use rs_redbase.Prelude.{
  ℕ, Bool, true, false, List, [], ◌∷◌, length, if◌then◌else◌, Result, ok, err, ◌>>=◌, ◌>>◌,
}
use rs_redbase.Prelude.Bytes.{Bytes}
use rs_redbase.Record.Types.{RecordError, invalid_predicate}
use rs_redbase.Record.Clause
use rs_redbase.Record.Clause.{PredicateClause}

pub record CompoundPredicate : Type 0 where
  pub clauses : List PredicateClause

-- The constructor function `CompoundPredicate::and`.
unfoldable pub and : List PredicateClause → Result RecordError CompoundPredicate
and [] = err (invalid_predicate "compound predicates must contain at least one clause")
and (c ∷ clauses) = ok (record { clauses = c ∷ clauses })

unfoldable pub validate_clauses : List PredicateClause → ℕ → Result RecordError (Unit {0})
validate_clauses [] record_size = ok tt
validate_clauses (c ∷ clauses) record_size = do
  Clause.validate_for_record c record_size
  validate_clauses clauses record_size

unfoldable pub match_clauses : List PredicateClause → Bytes → Result RecordError Bool
match_clauses [] data' = ok true
match_clauses (c ∷ clauses) data' = do
  matched ← Clause.matches c data'
  if matched then match_clauses clauses data' else ok false

unfoldable pub validate_for_record : CompoundPredicate → ℕ → Result RecordError (Unit {0})
validate_for_record p record_size = validate_clauses p.clauses record_size

unfoldable pub matches : CompoundPredicate → Bytes → Result RecordError Bool
matches p data' = do validate_for_record p (length data'); match_clauses p.clauses data'
