-- ===== src/Report.antt =====
-- The outcomes of a run and their summary, of bin/nanoeval/src/eval.rs. `R` is a result and `F` a
-- failure, with what the code asks of them; the events of a run are the list in which they are received,
-- and `E` is the error of the stream. The lines printed are not modelled.
pub mod Counts
mod Tests
use nanoeval.Prelude.{
  ℕ, Bool, List, Result, String, [], err, if◌then◌else◌, length, ok, suc, zero, ◌++◌, ◌+◌, ◌∷◌,
}
use nanoeval.Prelude.Order.{text_order}
use nanoeval.Prelude.StableSort.{sort_by}
use nanoeval.Errors.{EvalFailureKind, agent_safety_refusal}

-- `trial_name` and whether the status of a result is passed; `trial_name` and `kind` of a failure
pub record Attempts (R F : Type 0) : Type 0 where
  pub result_name : R → String
  pub has_passed : R → Bool
  pub failure_name : F → String
  pub failure_kind : F → EvalFailureKind

pub data AttemptOutcome (R F : Type 0) : Type 0 where
  passed_with : R → AttemptOutcome R F
  failed_with : R → AttemptOutcome R F
  refused_with : F → AttemptOutcome R F
  errored_with : F → AttemptOutcome R F

pub record RunSummary : Type 0 where
  pub total : ℕ
  pub passed : ℕ
  pub failed : ℕ
  pub refused : ℕ
  pub errored : ℕ

-- the kinds of events that end an attempt, and the others
pub data RunEvent (R F : Type 0) : Type 0 where
  attempt_completed : R → RunEvent R F
  attempt_failed : F → RunEvent R F
  attempt_progress : RunEvent R F

pub record Progress (R F : Type 0) : Type 0 where
  pub outcomes : List (AttemptOutcome R F)
  pub failures : ℕ

pub data ProgressError (E : Type 0) : Type 0 where
  stream_failed : E → ProgressError E
  stream_closed : ℕ → ProgressError E

module _ {R F : Type 0} where
  -- one more outcome of its kind
  abbrev pub tally : AttemptOutcome R F → RunSummary → RunSummary
  tally (passed_with result) summary = record summary { passed = summary.passed + 1 }
  tally (failed_with result) summary = record summary { failed = summary.failed + 1 }
  tally (refused_with failure) summary = record summary { refused = summary.refused + 1 }
  tally (errored_with failure) summary = record summary { errored = summary.errored + 1 }

  abbrev pub tally_all : List (AttemptOutcome R F) → RunSummary → RunSummary
  tally_all [] summary = summary
  tally_all (outcome ∷ later) summary = tally_all later (tally outcome summary)

  -- `RunSummary::from_attempts`
  unfoldable pub from_attempts : List (AttemptOutcome R F) → RunSummary
  from_attempts outcomes =
      tally_all outcomes
        (record { total = length outcomes; passed = 0; failed = 0; refused = 0; errored = 0 })

  -- `Progress::scored_results`
  unfoldable pub scored_results : List (AttemptOutcome R F) → List R
  scored_results [] = []
  scored_results (passed_with result ∷ later) = result ∷ scored_results later
  scored_results (failed_with result ∷ later) = result ∷ scored_results later
  scored_results (refused_with failure ∷ later) = scored_results later
  scored_results (errored_with failure ∷ later) = scored_results later

  module _ (attempts : Attempts R F) where
    open attempts use {result_name, has_passed, failure_name, failure_kind}

    -- `AttemptOutcome::from_result`
    unfoldable pub from_result : R → AttemptOutcome R F
    from_result result = if has_passed result then passed_with result else failed_with result

    -- `AttemptOutcome::from_failure`
    unfoldable pub from_failure : F → AttemptOutcome R F
    from_failure failure = elim (failure_kind failure) [
      | agent_safety_refusal ↦ refused_with failure
      | _ ↦ errored_with failure
    ]

    -- `AttemptOutcome::trial_name`
    unfoldable pub outcome_name : AttemptOutcome R F → String
    outcome_name (passed_with result) = result_name result
    outcome_name (failed_with result) = result_name result
    outcome_name (refused_with failure) = failure_name failure
    outcome_name (errored_with failure) = failure_name failure

    -- The loop of `report_progress`, from what is still expected; the list ends where the stream is
    -- closed.
    unfoldable pub report_progress :
        {E : Type 0}
        → ℕ
        → Progress R F
        → List (Result (RunEvent R F) E)
        → Result (Progress R F) (ProgressError E)
    unfolding from_result from_failure
    report_progress zero progress events = ok progress
    report_progress (suc expected) progress [] = err (stream_closed (length progress.outcomes))
    report_progress (suc expected) progress (err error ∷ events) = err (stream_failed error)
    report_progress (suc expected) progress (ok (attempt_completed result) ∷ events) =
        report_progress expected
          (record progress { outcomes = progress.outcomes ++ from_result result ∷ [] }) events
    report_progress (suc expected) progress (ok (attempt_failed failure) ∷ events) =
        report_progress expected
          (record {
            outcomes = progress.outcomes ++ from_failure failure ∷ [];
            failures = progress.failures + 1;
          })
          events
    report_progress (suc expected) progress (ok attempt_progress ∷ events) =
        report_progress (suc expected) progress events

    -- the attempts and the summary of `RunReport::new`
    unfoldable pub report_attempts :
        List (AttemptOutcome R F) → List (AttemptOutcome R F) × RunSummary
    unfolding sort_by outcome_name from_attempts
    report_attempts outcomes =
        let sorted =
          sort_by (λ left right. text_order.le (outcome_name left) (outcome_name right)) outcomes in
        (sorted, from_attempts sorted)
