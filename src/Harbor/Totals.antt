-- ===== src/Harbor/Totals.antt =====
-- What the numbers in a job's results file of crates/nanoeval-harbor/src/lib.rs add up to.
use nanoeval.Harbor.Balance.{
  IsBalanced, clear_passes-IsOrdered, ended, errors, set_passes-total, total-change_entry,
  total-clear_passes,
}
use nanoeval.Harbor.Stats.{
  HarborArtifacts, apply_delta, apply_evals, empty_eval, empty_stats, job_file, merge_into,
  new_delta, new_stats,
}
use nanoeval.Harbor.{
  HarborAgentDatasetStats, HarborJobStats, change_entry, get_or_else, TrialFailure, TrialResult,
  HarborJobResult,
}
use nanoeval.Prelude.{
  List, String, [], arith, refl, ℕ, ◌+◌, ◌∷◌, ◌≡◌, length, none, some, ◌<◌, ◌↔◌, ◌≢◌, ◌≤◌,
  if◌then◌else◌, length-append, ltb, ◌&&◌, ◌++◌, ◌-◌, ◌==◌, max,
}
use nanoeval.Prelude.Dict.{Dict, insert}
use nanoeval.Prelude.Dict.Ordered.{IsOrdered, insert-IsOrdered}
use nanoeval.Prelude.Dict.Totals.{total, sum_of-append}

-- A job is finished when every trial has ended and there is one.
finished_iff :
    {Time : Type 0} (now : Time) (trials completed : ℕ)
    → completed ≤ trials
    → ((if ltb 0 trials && completed == trials then some now else none) ≢ none)
      ↔ ((0 < trials) × (trials - completed ≡ 0))
finished_iff now trials completed h = (λ k. (ground arith, ground arith), λ k e. ground arith)

module _ {F : Type 0} (add : F → F → F) (zero_cost : F) where
  merge_entry-total :
      (d : HarborAgentDatasetStats F) (key : String) (evals : Dict (HarborAgentDatasetStats F))
      → IsOrdered evals
      → IsOrdered (change_entry empty_eval key (merge_into add zero_cost d) evals)
        × (total ended (change_entry empty_eval key (merge_into add zero_cost d) evals)
            ≡ total ended evals + ended d)
        × (total errors (change_entry empty_eval key (merge_into add zero_cost d) evals)
            ≡ total errors evals + errors d)
  unfolding merge_into
  merge_entry-total d key evals o = (
    insert-IsOrdered key _ evals o,
    total-change_entry ended key (merge_into add zero_cost d) evals (ended d) o refl
        (λ eval. omega arith),
    total-change_entry errors key (merge_into add zero_cost d) evals (errors d) o refl
        (λ eval. omega arith),
  )

  -- The counts of the results and failures go to one entry.
  apply_evals-total :
      (results : List (TrialResult F)) (failures : List TrialFailure)
      (evals : Dict (HarborAgentDatasetStats F))
      → IsOrdered evals
      → IsOrdered (apply_evals add zero_cost (new_delta add zero_cost results failures) evals)
        × (total ended (apply_evals add zero_cost (new_delta add zero_cost results failures) evals)
            ≡ total ended evals + (length results + length failures))
        × (total errors (apply_evals add zero_cost (new_delta add zero_cost results failures) evals)
            ≡ total errors evals + length failures)
  unfolding apply_evals new_delta merge_into insert
  apply_evals-total (result ∷ results) failures evals o =
      merge_entry-total (new_delta add zero_cost (result ∷ results) failures).eval_stats _ evals o
  apply_evals-total [] (failure ∷ failures) evals o =
      merge_entry-total (new_delta add zero_cost [] (failure ∷ failures)).eval_stats _ evals o
  apply_evals-total [] [] [] o = ((tt, tt), refl, refl)
  apply_evals-total [] [] (eval ∷ evals) o = (o, omega arith, omega arith)

  module _ {Time : Type 0} where
    abbrev pub baseline_stats : HarborArtifacts add zero_cost Time → HarborJobStats F
    baseline_stats self = elim self.baseline [ none ↦ empty_stats | some job ↦ job.stats ]

    new_stats-counts :
        (self : HarborArtifacts add zero_cost Time) (passes : Dict (List (ℕ × F)))
        (results : List (TrialResult F)) (failures : List TrialFailure)
        → IsBalanced (baseline_stats self)
        → IsBalanced (new_stats add zero_cost self passes results failures)
    unfolding new_stats apply_delta new_delta
    new_stats-counts self passes results failures balanced =
        let start = baseline_stats self in
        let delta = new_delta add zero_cost results failures in
        let (ordered, grown, failed) =
          apply_evals-total results failures start.evals balanced.ordered in
        let cleared = clear_passes-IsOrdered add zero_cost _ ordered in
        let (kept, same) =
          set_passes-total add zero_cost ended passes _ refl (λ eval k. refl) cleared in
        let (kept', same') =
          set_passes-total add zero_cost errors passes _ refl (λ eval k. refl) cleared in
        let clear =
          total-clear_passes add zero_cost ended (apply_evals add zero_cost delta start.evals)
            (λ eval k. refl) in
        let clear' =
          total-clear_passes add zero_cost errors (apply_evals add zero_cost delta start.evals)
            (λ eval k. refl) in
        record {
          ordered = kept;
          completed_trials = omega (arith, balanced.completed_trials);
          errored_trials = omega (arith, balanced.errored_trials);
        }

    -- How a results file stands to the job that it resumes.
    pub record IsRecorded (self : HarborArtifacts add zero_cost Time)
        (results : List (TrialResult F)) (failures : List TrialFailure)
        (file : HarborJobResult F Time) : Type 0 where
      pub balanced : IsBalanced file.stats
      pub completed_count :
          file.stats.n_completed_trials
          ≡ (baseline_stats self).n_completed_trials + length results + length failures
      pub errored_count :
          file.stats.n_errored_trials ≡ (baseline_stats self).n_errored_trials + length failures
      pub pending :
          file.stats.n_pending_trials + file.stats.n_completed_trials ≡ file.n_total_trials
      pub planned : get_or_else self.planned_attempts 0 ≤ file.n_total_trials
      pub is_finished :
          (file.finished_at ≢ none)
          ↔ ((0 < file.n_total_trials) × (file.stats.n_pending_trials ≡ 0))

    -- What a job file counts, if the statistics that it starts from are balanced.
    pub job_file-IsRecorded :
        (self : HarborArtifacts add zero_cost Time) (now : Time) (passes : Dict (List (ℕ × F)))
        (results : List (TrialResult F)) (failures : List TrialFailure) (trials : ℕ)
        → IsBalanced (baseline_stats self)
        → IsRecorded self results failures
            (job_file add zero_cost self now passes results failures trials)
    unfolding job_file new_stats apply_delta new_delta
    job_file-IsRecorded self now passes results failures trials start =
        let counts = new_stats-counts self passes results failures start in
        record {
          balanced = record {
            ordered = counts.ordered;
            completed_trials = counts.completed_trials;
            errored_trials = counts.errored_trials;
          };
          completed_count = omega arith;
          errored_count = omega arith;
          pending = omega arith;
          planned = omega arith;
          is_finished = finished_iff now _ _ (omega arith);
        }

    -- A number of trials that the results and failures or the plan account for changes nothing.
    job_file-trials :
        (self : HarborArtifacts add zero_cost Time) (now : Time) (passes : Dict (List (ℕ × F)))
        (results : List (TrialResult F)) (failures : List TrialFailure) (trials : ℕ)
        → trials ≤ max (length results + length failures) (get_or_else self.planned_attempts 0)
        → job_file add zero_cost self now passes results failures 0
          ≡ job_file add zero_cost self now passes results failures trials
    unfolding job_file new_stats apply_delta new_delta
    job_file-trials self now passes results failures trials own =
        let planned = get_or_else self.planned_attempts 0 in
        let before : ℕ = elim self.baseline [ none ↦ 0 | some job ↦ job.n_total_trials ] in
        let completed = (new_stats add zero_cost self passes results failures).n_completed_trials in
        let same : max (max (max 0 planned) before) completed
            ≡ max (max (max trials planned) before) completed =
          omega arith in
        rw (same, job_file) refl

    -- Two files count the same trials, errors and tokens, and a job with the same start.
    pub record CountsAs (file other : HarborJobResult F Time) : Type 0 where
      pub completed : file.stats.n_completed_trials ≡ other.stats.n_completed_trials
      pub errored : file.stats.n_errored_trials ≡ other.stats.n_errored_trials
      pub input_tokens : file.stats.n_input_tokens ≡ other.stats.n_input_tokens
      pub cache_tokens : file.stats.n_cache_tokens ≡ other.stats.n_cache_tokens
      pub output_tokens : file.stats.n_output_tokens ≡ other.stats.n_output_tokens
      pub total_trials : file.n_total_trials ≡ other.n_total_trials
      pub pending : file.stats.n_pending_trials ≡ other.stats.n_pending_trials
      pub started : file.started_at ≡ other.started_at

    resumed_uncounted :
        (self : HarborArtifacts add zero_cost Time) (now later : Time)
        (passes passes' : Dict (List (ℕ × F))) (results more : List (TrialResult F))
        (failures more_failures : List TrialFailure)
        → CountsAs
            (job_file add zero_cost
              (record self {
                baseline = some (job_file add zero_cost self now passes results failures 0);
              })
              later
              passes'
              more
              more_failures
              0)
            (job_file add zero_cost self later passes'
              (results ++ more)
              (failures ++ more_failures)
              0)
    unfolding job_file new_stats apply_delta new_delta
    resumed_uncounted self now later passes passes' results more failures more_failures =
        let counted = length-append results more in
        let counted' = length-append failures more_failures in
        record {
          completed = omega arith;
          errored = omega arith;
          input_tokens = omega (arith, sum_of-append (λ r. r.input_tokens) results more);
          cache_tokens = omega (arith, sum_of-append (λ r. r.cached_input_tokens) results more);
          output_tokens = omega (arith, sum_of-append (λ r. r.output_tokens) results more);
          total_trials = omega arith;
          pending = omega arith;
          started = refl;
        }

    -- A job that is written with the results and failures of one run, resumed with those of another run
    -- and written again has the trials, errors, tokens, total, pending trials and start of a job that
    -- is written once with all of them, if all three have the same plan and each takes at most as many
    -- trials as it has results and failures itself or as are planned.
    pub job_file-resumed :
        (self : HarborArtifacts add zero_cost Time) (now later : Time)
        (passes passes' : Dict (List (ℕ × F))) (results more : List (TrialResult F))
        (failures more_failures : List TrialFailure) (trials more_trials all_trials : ℕ)
        → trials ≤ max (length results + length failures) (get_or_else self.planned_attempts 0)
        → more_trials
          ≤ max (length more + length more_failures) (get_or_else self.planned_attempts 0)
        → all_trials
          ≤ max
              (length (results ++ more) + length (failures ++ more_failures))
              (get_or_else self.planned_attempts 0)
        → CountsAs
            (job_file add zero_cost
              (record self {
                baseline = some (job_file add zero_cost self now passes results failures trials);
              })
              later
              passes'
              more
              more_failures
              more_trials)
            (job_file add zero_cost self later passes'
              (results ++ more)
              (failures ++ more_failures)
              all_trials)
    job_file-resumed self now later passes passes' results more failures more_failures trials
          more_trials all_trials own more_own all_own =
        let first = job_file-trials self now passes results failures trials own in
        let again =
          job_file-trials
            (record self {
              baseline = some (job_file add zero_cost self now passes results failures trials);
            })
            later passes' more more_failures more_trials more_own in
        let at_once =
          job_file-trials self later passes' (results ++ more) (failures ++ more_failures)
            all_trials all_own in
        rw (← again) (
          rw (← first) (
            rw (← at_once) (
              resumed_uncounted self now later passes passes' results more failures more_failures)))
