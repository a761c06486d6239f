-- ===== src/Compare/Tests.antt =====
-- A retained job of two trials, and published runs beside it.
use nanoeval.Compare.Local.Counts.{listed_trials}
use nanoeval.Prelude.Dict.{lookup, insert}
use nanoeval.Prelude.{
  ℕ, Bool, List, Result, String, [], err, false, filter, is_present, length, ltb, none, ok, refl,
  some, true, ◌+◌, ◌∷◌, ◌≡◌, ◌≤◌,
}
use nanoeval.Prelude.Order.{lex}
use nanoeval.Prelude.StableSort.{sort_by}
use nanoeval.Archive.{PublishedAttempt, PublishedAttempts}
use nanoeval.Compare.{pass_at_k, TaskScore, show_ambiguous}
use nanoeval.Compare.Local.{
  load_job, LocalAttempt, LocalJob, TrialDirectory, configured_thinking_of, finish, is_passed,
  load_local_trial, load_observed_thinking, load_trials, record_trial, trial_of,
}
use nanoeval.Compare.Scores.{local_score, RunScore, common_trials, new_score, published_config}
use nanoeval.Compare.Scores.Laws.{load_job-counts}
use nanoeval.Compare.Selection.{select_task, pick_attempt}
use nanoeval.Compare.Published.{
  new_comparison, JobComparison, agent_labels, published_run_score, record_attempt, record_attempts,
  record_other, record_published, record_tasks, run_before, single_revision, sort_runs,
}
use nanoeval.Compare.Published.Laws.{new_comparison-IsCovering, IsCovering, AreBestFirst}
use nanoeval.Compare.Show.{resolve_show_selector, is_shown_by, shown_submissions, shown_texts}
use mathlib.Core.List.{Memᴰ}

abbrev is_reward : ℕ → Bool
is_reward n = ltb 0 n

abbrev trial_entry : String → ℕ → Result (TrialDirectory ℕ String) String
trial_entry name n = ok (record {
  path = "job" ∷ name ∷ [];
  is_dir = ok true;
  result = ok (
      some (
        ok (record {
          trial_name = name;
          task_name = "task";
          task_checksum = "sum";
          agent_info = record { name = "nanoeval"; version = none; model_info = some "model" };
          config = some (record { effort = some "low"; reasoning_effort = none });
          verifier_result = some (("reward", n) ∷ []);
          exception_info = none;
        })));
  events = ok none;
  has_trajectory = true;
})

abbrev two_entries : List (Result (TrialDirectory ℕ String) String)
two_entries = trial_entry "task__1" 0 ∷ trial_entry "task__2" 1 ∷ []

abbrev kept_attempt : String → Bool → LocalAttempt
kept_attempt name is_pass = record {
  directory = "job" ∷ name ∷ [];
  trial_name = name;
  passed = is_pass;
  configured_thinking = some "low";
  observed_thinking = none;
}

abbrev two_attempts : List LocalAttempt
two_attempts = kept_attempt "task__1" false ∷ kept_attempt "task__2" true ∷ []

abbrev task_total : TaskScore
task_total = record {
  task_name = "task";
  task_checksum = "sum";
  trials = 2;
  passes = 1;
  errors = 0;
  trajectories = 2;
}

abbrev one_job : LocalJob
one_job = record {
  agent = "nanoeval";
  agent_version = none;
  model = "model";
  thinking_configured = "low" ∷ [];
  thinking_observed = [];
  thinking_observed_trials = 0;
  tasks = ("task", task_total) ∷ [];
  trials = ("task", two_attempts) ∷ [];
}

job_loads : load_job is_reward true (ok two_entries) ≡ ok one_job
unfolding load_job load_trials finish record_trial trial_of load_local_trial load_observed_thinking
    is_passed configured_thinking_of insert lookup lex
job_loads = refl

load_job-counts_example :
    ((local_score one_job).trials ≡ length (listed_trials two_entries))
    × ((local_score one_job).passes
        ≡ length (filter (λ p. is_passed is_reward (p.1)) (listed_trials two_entries)))
    × ((local_score one_job).errors
        ≡ length (filter (λ p. is_present (p.1).exception_info) (listed_trials two_entries)))
    × ((local_score one_job).trajectories
        ≡ length (filter (λ p. (p.0).has_trajectory) (listed_trials two_entries)))
    × ((local_score one_job).passes + (local_score one_job).errors ≤ (local_score one_job).trials)
load_job-counts_example = load_job-counts is_reward two_entries one_job job_loads

task_selected : select_task {E = String} "tas" one_job ≡ ok one_job
unfolding select_task lex
task_selected = refl

attempt_picked : pick_attempt {E = String} none two_attempts ≡ ok (kept_attempt "task__1" false)
unfolding pick_attempt
attempt_picked = refl

abbrev published_attempt : String → Bool → PublishedAttempt
published_attempt submission is_pass = record {
  submission = submission;
  run = "run";
  task_name = "task";
  task_checksum = "sum";
  trial_name = "task__9";
  passed = is_pass;
  errored = false;
  agent = record { name = "agent"; version = none; model_info = none };
  thinking = none;
  agent_import_path = none;
  result_path = "result.json";
  trajectory_path = none;
}

abbrev one_published : List PublishedAttempts
one_published =
    record {
      task = "task";
      requested_checksum = some "sum";
      archive_revision = "head";
      attempts =
          published_attempt "foo" false
          ∷ published_attempt "foo-2" true
          ∷ published_attempt "foo" true
          ∷ [];
    }
    ∷ []

abbrev published_total : String → ℕ → RunScore
published_total submission n = record {
  submission = submission;
  runs = "run" ∷ [];
  agent = "agent";
  agent_version = none;
  agent_import_paths = [];
  model = "unknown";
  thinking = record {
    configured = [];
    observed = [];
    observed_trials = 0;
    total_trials = n;
    provenance = published_config;
  };
  exact_revision = true;
  tasks = 1;
  k = some n;
  pass_at_k_tasks = 1;
  trials = n;
  passes = 1;
  errors = 0;
  trajectories = 0;
  task_scores =
      record {
        task_name = "task";
        task_checksum = "sum";
        trials = n;
        passes = 1;
        errors = 0;
        trajectories = 0;
      }
      ∷ [];
}

abbrev one_comparison : JobComparison
one_comparison = record {
  archive_revision = "head";
  local = local_score one_job;
  exact = published_total "foo" 2 ∷ published_total "foo-2" 1 ∷ [];
  other_revisions = [];
}

job_compared : new_comparison {E = String} one_job one_published 5 ≡ ok one_comparison
unfolding new_comparison single_revision record_tasks record_attempts record_attempt
    record_published record_other published_run_score agent_labels new_score common_trials pass_at_k
    sort_runs sort_by run_before local_score insert lookup lex
job_compared = refl

new_comparison-IsCovering_example :
    (length one_comparison.exact ≤ 5)
    × AreBestFirst one_comparison.exact
    × ((run : RunScore) → Memᴰ run one_comparison.exact → IsCovering 1 one_published run)
new_comparison-IsCovering_example =
    new_comparison-IsCovering one_job one_published 5 one_comparison job_compared

abbrev unchanged : String → String
unchanged text = text

-- The full name of one submission stays ambiguous when another one continues it.
exact_name_ambiguous :
    resolve_show_selector unchanged {E = String} one_published "foo"
    ≡ err (show_ambiguous "foo" ("foo" ∷ "foo-2" ∷ []))
unfolding resolve_show_selector shown_submissions is_shown_by shown_texts lex
exact_name_ambiguous = refl

show_resolved : resolve_show_selector unchanged {E = String} one_published "foo-2" ≡ ok "foo-2"
unfolding resolve_show_selector shown_submissions is_shown_by shown_texts lex
show_resolved = refl
