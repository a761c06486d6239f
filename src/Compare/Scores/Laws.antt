-- ===== src/Compare/Scores/Laws.antt =====
-- What the numbers of a run's score in bin/nanoeval/src/compare.rs say.
use nanoeval.Prelude.Dict.{Dict}
use nanoeval.Prelude.{
  ℕ, ==_iff, Bool, Bool-cases, List, Result, Result-cases, [], all, arith, filter, inl, inr, length,
  length-filter-not, ok, some, subst, true, ◌*◌, ◌+◌, ◌==◌, ◌∙◌, ◌∷◌, ◌≡◌, ◌≤◌, List-cases, map,
  is_present,
}
use nanoeval.Prelude.Dict.Totals.{sum_of, sum_of-values, total}
use nanoeval.Compare.{TaskScore, pass_at_k}
use nanoeval.Compare.Local.{
  LocalJob, LocalJobLoader, LocalTrial, TrialDirectory, empty_loader, finish, is_passed, load_job,
  load_trials,
}
use nanoeval.Compare.Local.Counts.{AreCounted, listed_trials, load_trials-AreCounted}
use nanoeval.Compare.Scores.{local_score, RunScoreInput, common_trials, new_score}

sum_of-common :
    (n : ℕ) (tasks : List TaskScore)
    → all (λ task. task.trials == n) tasks ≡ true
    → sum_of (λ task. task.trials) tasks ≡ length tasks * n
sum_of-common n [] h = omega arith
sum_of-common n (task ∷ tasks) h = ground (arith, sum_of-common n tasks, ==_iff task.trials n)

passed_tasks-le :
    (tasks : List TaskScore) → length (filter pass_at_k tasks) ≤ sum_of (λ task. task.passes) tasks
unfolding pass_at_k
passed_tasks-le [] = omega arith
passed_tasks-le (task ∷ tasks) = ground (arith, passed_tasks-le tasks)

common_trials-sum :
    (tasks : List TaskScore) (k : ℕ)
    → common_trials tasks ≡ some k
    → sum_of (λ task. task.trials) tasks ≡ length tasks * k
unfolding common_trials
common_trials-sum [] k h = absurd (cc)
common_trials-sum (first ∷ later) k h =
    elim (Bool-cases (all (λ task. task.trials == first.trials) (first ∷ later))) [
      | inr differ ↦ absurd (cc (rw (common_trials, differ) at h))
      | inl common ↦
          let value : first.trials ≡ k = cc (rw (common_trials, common) at h) in
          subst (λ n. sum_of (λ task. task.trials) (first ∷ later) ≡ length (first ∷ later) * n)
            value (sum_of-common first.trials (first ∷ later) common)
    ]

-- In the score of a run that has a common `k`, there are `k` trials for each task; and at most as
-- many tasks are solved as there are tasks, and as trials passed.
pub new_score-k :
    (input : RunScoreInput)
    → ((k : ℕ)
        → (new_score input).k ≡ some k
        → (new_score input).trials ≡ (new_score input).tasks * k)
      × ((new_score input).pass_at_k_tasks ≤ (new_score input).tasks)
      × ((new_score input).pass_at_k_tasks ≤ (new_score input).passes)
unfolding new_score
new_score-k input = (
  λ k h. common_trials-sum input.task_scores k h,
  omega (arith, length-filter-not pass_at_k input.task_scores),
  passed_tasks-le input.task_scores,
)

sum_from_empty :
    (f : TaskScore → ℕ) (m : Dict TaskScore) {n : ℕ}
    → total f m ≡ 0 + n
    → sum_of f (map (λ e. e.1) m) ≡ n
sum_from_empty f m h = omega (arith, sum_of-values f m, h)

module _ {Reward E : Type 0} (positive : Reward → Bool) where
  passed_or_error :
      (trials : List (TrialDirectory Reward E × LocalTrial Reward))
      → length (filter (λ p. is_passed positive (p.1)) trials)
          + length (filter (λ p. is_present (p.1).exception_info) trials)
        ≤ length trials
  unfolding is_passed
  passed_or_error [] = omega arith
  passed_or_error (trial ∷ trials) = ground (arith, passed_or_error trials)

  finish-tasks :
      (loader : LocalJobLoader) (job : LocalJob)
      → finish {E = E} loader ≡ ok job
      → loader.tasks ≡ job.tasks
  unfolding finish
  finish-tasks loader job h = elim (List-cases loader.tasks) [
    | inl no_task ↦ absurd (cc (rw (finish, no_task) at h))
    | inr (first, later, tasks) ↦ elim (List-cases loader.agents) [
      | inl no_agent ↦ absurd (cc (rw no_agent at rw (finish, tasks) at h))
      | inr (agent_key, [], one) ↦
          let built = rw one at rw (finish, tasks) at h in tasks ∙ (cc built)
      | inr (agent_key, another ∷ more, several) ↦
          absurd (cc (rw several at rw (finish, tasks) at h))
    ]
  ]

  score_counts :
      (entries : List (Result (TrialDirectory Reward E) E)) (job : LocalJob)
      → AreCounted positive (listed_trials entries) [] job.tasks
      → ((local_score job).trials ≡ length (listed_trials entries))
        × ((local_score job).passes
            ≡ length (filter (λ p. is_passed positive (p.1)) (listed_trials entries)))
        × ((local_score job).errors
            ≡ length (filter (λ p. is_present (p.1).exception_info) (listed_trials entries)))
        × ((local_score job).trajectories
            ≡ length (filter (λ p. (p.0).has_trajectory) (listed_trials entries)))
        × ((local_score job).passes + (local_score job).errors ≤ (local_score job).trials)
  unfolding local_score new_score
  score_counts entries job h =
      let trials = sum_from_empty (λ s. s.trials) job.tasks h.trials in
      let passes = sum_from_empty (λ s. s.passes) job.tasks h.passes in
      let errors = sum_from_empty (λ s. s.errors) job.tasks h.errors in
      (
        trials,
        passes,
        errors,
        sum_from_empty (λ s. s.trajectories) job.tasks h.trajectories,
        omega (arith, trials, passes, errors, passed_or_error (listed_trials entries)),
      )

  -- The score of a retained job that loads counts each directory with a result once as a trial, the
  -- trials that passed, those with an exception, and those with a trajectory; and no trial is
  -- counted both as passed and as an error.
  pub load_job-counts :
      (entries : List (Result (TrialDirectory Reward E) E)) (job : LocalJob)
      → load_job positive true (ok entries) ≡ ok job
      → ((local_score job).trials ≡ length (listed_trials entries))
        × ((local_score job).passes
            ≡ length (filter (λ p. is_passed positive (p.1)) (listed_trials entries)))
        × ((local_score job).errors
            ≡ length (filter (λ p. is_present (p.1).exception_info) (listed_trials entries)))
        × ((local_score job).trajectories
            ≡ length (filter (λ p. (p.0).has_trajectory) (listed_trials entries)))
        × ((local_score job).passes + (local_score job).errors ≤ (local_score job).trials)
  unfolding load_job
  load_job-counts entries job h = elim (Result-cases (load_trials positive empty_loader entries)) [
    | inr (error, bad) ↦ absurd (cc (rw (load_job, bad) at h))
    | inl (loader, good) ↦
        let finished = rw (load_job, good) at h in
        let counted = load_trials-AreCounted positive empty_loader entries loader tt good in
        score_counts entries job (
          subst (AreCounted positive (listed_trials entries) []) (finish-tasks loader job finished)
            counted)
  ]
