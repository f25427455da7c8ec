-- ===== src/Record/Meaning/Filters.antt =====
-- `LogicFilter` of storage/record, and its meaning.
use rs_redbase.Prelude.{
  ◌≡◌, refl, ℕ, not, List, [], ◌∷◌, arith, length, Result, ok, err, panicked, ◌>>=◌, ◌>>◌, String,
  first_passed,
}
use rs_redbase.Prelude.Bytes.{Bytes}
use rs_redbase.Record.Clause
use rs_redbase.Record.Clause.{PredicateClause}
use rs_redbase.Record.Compound
use rs_redbase.Record.Compound.{CompoundPredicate, validate_clauses, match_clauses}
use rs_redbase.Record.Logic.{
  LogicFilter, LogicFilters, validate_for_record, validate_logic_children, validate_each, matches,
  match_and, match_or,
}
use rs_redbase.Record.Meaning.{clauses_hold, holds, all_hold, any_holds}
use rs_redbase.Record.Meaning.Clauses
use rs_redbase.Record.Meaning.Clauses.{after_validation}

match_clauses-eq :
    (cs : List PredicateClause) (d : Bytes)
    → validate_clauses cs (length d) ≡ ok tt
    → match_clauses cs d ≡ ok (clauses_hold cs d)
unfolding validate_clauses match_clauses clauses_hold
match_clauses-eq [] d h = refl
match_clauses-eq (c ∷ cs) d h =
    let (now, later) = first_passed (Clause.validate_for_record c (length d)) _ h in
    rw (Clauses.matches-eq c d, now) (ground (arith, match_clauses-eq cs d later))

compound-eq :
    (p : CompoundPredicate) (d : Bytes)
    → Compound.matches p d
      ≡ (Compound.validate_for_record p (length d) >>= λ _. ok (clauses_hold p.clauses d))
unfolding Compound.matches Compound.validate_for_record
compound-eq p d =
    after_validation (validate_clauses p.clauses (length d)) _ (clauses_hold p.clauses d)
      (match_clauses-eq p.clauses d)

-- A check made twice is a check made once.
check_again {ℓ} :
    {E : Type 0} {A : Type ℓ} (m : Result E (Unit {0})) (r : Result E A)
    → (m >> (m >> r)) ≡ (m >> r)
check_again (ok u) r = refl
check_again (err e) r = refl
check_again panicked r = refl

children_each :
    (fs : LogicFilters) (n : ℕ) (node : String)
    → validate_logic_children fs n node ≡ ok tt
    → validate_each fs n ≡ ok tt
unfolding validate_for_record
children_each LogicFilters.nil n node h = cc
children_each (LogicFilters.cons f fs) n node h = h

mutual
  unfolding validate_for_record matches holds

  pub logic-eq :
      (f : LogicFilter) (d : Bytes)
      → matches f d ≡ (validate_for_record f (length d) >>= λ _. ok (holds f d))
  logic-eq (LogicFilter.clause c) d =
      rw (Clauses.matches-eq c d) (check_again (Clause.validate_for_record c (length d)) _)
  logic-eq (LogicFilter.all p) d =
      rw (compound-eq p d) (check_again (Compound.validate_for_record p (length d)) _)
  logic-eq (LogicFilter.and fs) d =
      after_validation (validate_logic_children fs (length d) "AND") _ (all_hold fs d)
        (λ h. match_and-eq fs d (children_each fs (length d) "AND" h))
  logic-eq (LogicFilter.or fs) d =
      after_validation (validate_logic_children fs (length d) "OR") _ (any_holds fs d)
        (λ h. match_or-eq fs d (children_each fs (length d) "OR" h))
  logic-eq (LogicFilter.not f) d =
      after_validation (validate_for_record f (length d)) _ (not (holds f d))
        (λ h. rw (logic-eq f d, h))

  match_and-eq :
      (fs : LogicFilters) (d : Bytes)
      → validate_each fs (length d) ≡ ok tt
      → match_and fs d ≡ ok (all_hold fs d)
  match_and-eq LogicFilters.nil d h = refl
  match_and-eq (LogicFilters.cons f fs) d h =
      let (now, later) = first_passed (validate_for_record f (length d)) _ h in
      rw (logic-eq f d, now) (ground (arith, match_and-eq fs d later))

  match_or-eq :
      (fs : LogicFilters) (d : Bytes)
      → validate_each fs (length d) ≡ ok tt
      → match_or fs d ≡ ok (any_holds fs d)
  match_or-eq LogicFilters.nil d h = refl
  match_or-eq (LogicFilters.cons f fs) d h =
      let (now, later) = first_passed (validate_for_record f (length d)) _ h in
      rw (logic-eq f d, now) (ground (arith, match_or-eq fs d later))
