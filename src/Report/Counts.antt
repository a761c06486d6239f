-- ===== src/Report/Counts.antt =====
-- The counts of a run's outcomes in bin/nanoeval/src/eval.rs.
use nanoeval.Prelude.{
  ℕ, Bool-cases, List, Result, [], arith, err, inl, inr, length, length-append, ok, refl, subst,
  suc, zero, ◌++◌, ◌+◌, ◌∷◌, ◌≡◌,
}
use nanoeval.Report.{
  report_progress, AttemptOutcome, Attempts, Progress, RunEvent, RunSummary, attempt_completed,
  attempt_failed, attempt_progress, errored_with, failed_with, from_attempts, from_failure,
  from_result, passed_with, refused_with, scored_results, tally, tally_all,
}

-- the four counts of a summary
abbrev pub outcome_total : RunSummary → ℕ
outcome_total summary = ((summary.passed + summary.failed) + summary.refused) + summary.errored

module _ {R F : Type 0} where
  tally_all-total :
      (outcomes : List (AttemptOutcome R F)) (summary : RunSummary)
      → (outcome_total (tally_all outcomes summary) ≡ outcome_total summary + length outcomes)
        × ((tally_all outcomes summary).total ≡ summary.total)
        × ((tally_all outcomes summary).passed + (tally_all outcomes summary).failed
            ≡ (summary.passed + summary.failed) + length (scored_results outcomes))
  unfolding scored_results
  tally_all-total [] summary = (omega arith, refl, omega arith)
  tally_all-total (passed_with result ∷ later) summary =
      let (counts, all_of, scores) =
        tally_all-total later (tally {R = R} {F = F} (passed_with result) summary) in
      (omega (arith, counts), all_of, omega (arith, scores))
  tally_all-total (failed_with result ∷ later) summary =
      let (counts, all_of, scores) =
        tally_all-total later (tally {R = R} {F = F} (failed_with result) summary) in
      (omega (arith, counts), all_of, omega (arith, scores))
  tally_all-total (refused_with failure ∷ later) summary =
      let (counts, all_of, scores) =
        tally_all-total later (tally {R = R} {F = F} (refused_with failure) summary) in
      (omega (arith, counts), all_of, omega (arith, scores))
  tally_all-total (errored_with failure ∷ later) summary =
      let (counts, all_of, scores) =
        tally_all-total later (tally {R = R} {F = F} (errored_with failure) summary) in
      (omega (arith, counts), all_of, omega (arith, scores))

  scored-append :
      (xs ys : List (AttemptOutcome R F))
      → length (scored_results (xs ++ ys)) ≡ length (scored_results xs) + length (scored_results ys)
  unfolding scored_results
  scored-append [] ys = omega arith
  scored-append (passed_with result ∷ xs) ys = omega (arith, scored-append xs ys)
  scored-append (failed_with result ∷ xs) ys = omega (arith, scored-append xs ys)
  scored-append (refused_with failure ∷ xs) ys = scored-append xs ys
  scored-append (errored_with failure ∷ xs) ys = scored-append xs ys

  -- One more outcome is a failure or it is scored.
  one_more :
      (xs : List (AttemptOutcome R F)) (x : AttemptOutcome R F) (failures n : ℕ)
      → n + length (scored_results (x ∷ [])) ≡ 1
      → failures + length (scored_results xs) ≡ length xs
      → (failures + n) + length (scored_results (xs ++ x ∷ [])) ≡ length (xs ++ x ∷ [])
  one_more xs x failures n h e =
      omega (arith, h, e, scored-append xs (x ∷ []), length-append xs (x ∷ []))

  module _ (attempts : Attempts R F) where
    from_result-scored :
        (result : R) → 0 + length (scored_results (from_result attempts result ∷ [])) ≡ 1
    unfolding from_result scored_results
    from_result-scored result = elim (Bool-cases (attempts.has_passed result)) [
      | inl good ↦ rw (from_result, good) (omega arith)
      | inr bad ↦ rw (from_result, bad) (omega arith)
    ]

    from_failure-scored :
        (failure : F) → 1 + length (scored_results (from_failure attempts failure ∷ [])) ≡ 1
    unfolding from_failure scored_results
    from_failure-scored failure = ground arith

    report_progress-counts :
        {E : Type 0} (expected : ℕ) (progress out : Progress R F)
        (events : List (Result (RunEvent R F) E))
        → report_progress attempts expected progress events ≡ ok out
        → progress.failures + length (scored_results progress.outcomes) ≡ length progress.outcomes
        → (length out.outcomes ≡ length progress.outcomes + expected)
          × (out.failures + length (scored_results out.outcomes) ≡ length out.outcomes)
    unfolding report_progress
    report_progress-counts zero progress out events h e =
        let done : progress ≡ out = cc in
        subst
          (λ (p : Progress R F).
            (length p.outcomes ≡ length progress.outcomes + 0)
            × (p.failures + length (scored_results p.outcomes) ≡ length p.outcomes))
          done (omega arith, e)
    report_progress-counts (suc expected) progress out [] h e = absurd (cc)
    report_progress-counts (suc expected) progress out (err error ∷ events) h e = absurd (cc)
    report_progress-counts (suc expected) progress out (ok (attempt_completed result) ∷ events) h
          e =
        let outcome = from_result attempts result in
        let (counts, sums) =
          report_progress-counts expected
            (record progress { outcomes = progress.outcomes ++ outcome ∷ [] }) out events h
            (omega (
              arith,
              one_more progress.outcomes outcome progress.failures 0 (from_result-scored result) e,
            )) in
        (omega (arith, counts, length-append progress.outcomes (outcome ∷ [])), sums)
    report_progress-counts (suc expected) progress out (ok (attempt_failed failure) ∷ events) h e =
        let outcome = from_failure attempts failure in
        let (counts, sums) =
          report_progress-counts expected
            (record {
              outcomes = progress.outcomes ++ outcome ∷ [];
              failures = progress.failures + 1;
            })
            out events h
            (one_more progress.outcomes outcome progress.failures 1 (from_failure-scored failure)
              e) in
        (omega (arith, counts, length-append progress.outcomes (outcome ∷ [])), sums)
    report_progress-counts (suc expected) progress out (ok attempt_progress ∷ events) h e =
        report_progress-counts (suc expected) progress out events h e

    -- When the progress of a run is reported to its end, there is one outcome for each expected
    -- attempt; the failures counted and the results that are scored are together all of them; and the
    -- summary of the outcomes counts each of them once, as passed, failed, refused or errored.
    pub report_progress-total :
        {E : Type 0} (expected : ℕ) (out : Progress R F) (events : List (Result (RunEvent R F) E))
        → report_progress attempts expected (record { outcomes = []; failures = 0 }) events ≡ ok out
        → (length out.outcomes ≡ expected)
          × (out.failures + length (scored_results out.outcomes) ≡ expected)
          × ((from_attempts out.outcomes).total ≡ expected)
          × (outcome_total (from_attempts out.outcomes) ≡ expected)
          × ((from_attempts out.outcomes).refused + (from_attempts out.outcomes).errored
              ≡ out.failures)
    unfolding from_attempts scored_results
    report_progress-total expected out events h =
        let (counts, sums) =
          report_progress-counts expected (record { outcomes = []; failures = 0 }) out events h
            (omega arith) in
        let (tallied, all_of, scores) = tally_all-total out.outcomes (record {
          total = length out.outcomes;
          passed = 0;
          failed = 0;
          refused = 0;
          errored = 0;
        }) in
        (
          omega (arith, counts),
          omega (arith, counts, sums),
          omega (arith, all_of, counts),
          omega (arith, tallied, counts),
          omega (arith, tallied, scores, counts, sums),
        )
