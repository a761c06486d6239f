-- ===== src/Report/Tests.antt =====
-- A run of three attempts: one passes, one is refused and one is not solved.
use nanoeval.Prelude.{Bool, List, Result, String, [], false, length, ok, refl, true, ◌+◌, ◌∷◌, ◌≡◌}
use nanoeval.Prelude.Order.{lex}
use nanoeval.Prelude.StableSort.{sort_by}
use nanoeval.Errors.{EvalFailureKind, agent_safety_refusal}
use nanoeval.Report.{
  report_progress, Attempts, Progress, RunEvent, attempt_completed, attempt_failed,
  attempt_progress, failed_with, from_attempts, from_failure, from_result, outcome_name,
  passed_with, refused_with, report_attempts, scored_results,
}
use nanoeval.Report.Counts.{report_progress-total, outcome_total}

abbrev by_name : Attempts (String × Bool) (String × EvalFailureKind)
by_name = record {
  result_name = λ result. result.0;
  has_passed = λ result. result.1;
  failure_name = λ failure. failure.0;
  failure_kind = λ failure. failure.1;
}

abbrev three_events : List (Result (RunEvent (String × Bool) (String × EvalFailureKind)) String)
three_events =
    ok attempt_progress
    ∷ ok (attempt_completed ("c", true))
    ∷ ok (attempt_failed ("a", agent_safety_refusal))
    ∷ ok attempt_progress
    ∷ ok (attempt_completed ("b", false))
    ∷ []

abbrev three_outcomes : Progress (String × Bool) (String × EvalFailureKind)
three_outcomes = record {
  outcomes =
      passed_with ("c", true)
      ∷ refused_with ("a", agent_safety_refusal)
      ∷ failed_with ("b", false)
      ∷ [];
  failures = 1;
}

three_reported :
    report_progress by_name 3 (record { outcomes = []; failures = 0 }) three_events
    ≡ ok three_outcomes
unfolding report_progress from_result from_failure
three_reported = refl

report_progress-total_example :
    (length three_outcomes.outcomes ≡ 3)
    × (1 + length (scored_results three_outcomes.outcomes) ≡ 3)
    × ((from_attempts three_outcomes.outcomes).total ≡ 3)
    × (outcome_total (from_attempts three_outcomes.outcomes) ≡ 3)
    × ((from_attempts three_outcomes.outcomes).refused
          + (from_attempts three_outcomes.outcomes).errored
        ≡ 1)
report_progress-total_example =
    report_progress-total by_name 3 three_outcomes three_events three_reported

three_sorted :
    (report_attempts by_name three_outcomes.outcomes).0
    ≡ refused_with ("a", agent_safety_refusal)
      ∷ failed_with ("b", false)
      ∷ passed_with ("c", true)
      ∷ []
unfolding report_attempts sort_by outcome_name lex
three_sorted = refl
