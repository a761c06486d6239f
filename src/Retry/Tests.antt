-- ===== src/Retry/Tests.antt =====
-- Two retained jobs, the second a retry of the first, and two that are a retry of each other.
use nanoeval.Prelude.Distinct.{IsDistinct}
use nanoeval.Prelude.{
  ℕ, Bool, Bool-cases, List, Option, Result, String, [], err, false, if◌then◌else◌, inl, inr, ltb,
  none, ok, refl, reverse, some, true, ◌∷◌, ◌≡◌, ◌≢◌,
}
use nanoeval.Prelude.Paths.{FilePath, path_eq}
use nanoeval.Prelude.Dict.{lookup, Dict, insert}
use nanoeval.Retry.{
  retry_queue, Retained, RetainedEntry, RetainedRetryQueue, RetainedTrialStatus, RunInvocation,
  add_roots, add_statuses, check_version, entry_trials, failed, failures, is_missing, is_retryable,
  is_selected, lineage_cycle, load_invocation, merge, note_status, overlay, parent_of, passed,
  report_missing, resolve_parent, retained_retry_lineage, retained_retry_task_roots,
  retained_task_statuses, roots_of_jobs, status, walk,
}
use nanoeval.Retry.Best.{IsBest, trials_of}
use nanoeval.Retry.Statuses.{retained_task_statuses-IsBest}
use nanoeval.Prelude.Order.{lex}
use nanoeval.Retry.Overlay.{retry_queue-members, IsQueued, IsRead, latest}
use nanoeval.Retry.Lineage.{
  retained_retry_lineage-ends, IsChain, retained_retry_lineage-IsChain, self,
}
use nanoeval.Retry.Roots.{retained_retry_task_roots_complete}
use mathlib.Core.List.{Memᴰ}

abbrev is_reward : ℕ → Bool
is_reward reward = ltb 0 reward

abbrev trial_with : String → ℕ → Result (RetainedEntry ℕ String) String
trial_with name reward = ok (record {
  is_dir = ok true;
  has_result = true;
  result = ok (record {
    task_name = name;
    rewards = some (("reward", reward) ∷ []);
    exception_type = none;
  });
})

abbrev first_job : FilePath
first_job = "jobs" ∷ "first" ∷ []

abbrev second_job : FilePath
second_job = "jobs" ∷ "second" ∷ []

abbrev first_entries : List (Result (RetainedEntry ℕ String) String)
first_entries = trial_with "a" 0 ∷ trial_with "b" 0 ∷ trial_with "a" 1 ∷ []

abbrev retry_of : Option FilePath → RunInvocation
retry_of parent = record {
  version = 1;
  trials = 1;
  concurrency = 1;
  max_memory_mb = none;
  vm = true;
  vm_rootfs = none;
  vm_retention = failures;
  thinking = "low";
  web_search = false;
  rerun_from = parent;
}

abbrev resolve : FilePath → Result FilePath String
resolve path =
    if path_eq path first_job
    then ok first_job
    else if path_eq path second_job
    then ok second_job
    else err "no such directory"

abbrev two_jobs : Retained ℕ String
two_jobs = record {
  canonicalize = resolve;
  invocation =
      λ job. ok (if path_eq job second_job then some (retry_of (some first_job)) else none);
  entries = λ job. ok (if path_eq job first_job then first_entries else []);
}

abbrev circle : Retained ℕ String
circle = record two_jobs {
  invocation =
      λ job. ok (some (retry_of (some (if path_eq job second_job then first_job else second_job))));
}

resolve-closed :
    (path real : FilePath) → resolve path ≡ ok real → Memᴰ real (first_job ∷ second_job ∷ [])
resolve-closed path real h = elim (Bool-cases (path_eq path first_job)) [
  | inl first ↦ Memᴰ.head (cc (rw first at h))
  | inr not_first ↦ elim (Bool-cases (path_eq path second_job)) [
    | inl second ↦ Memᴰ.tail (Memᴰ.head (cc (rw second at rw not_first at h)))
    | inr neither ↦ absurd (cc (rw neither at rw not_first at h))
  ]
]

first_statuses :
    retained_task_statuses is_reward (ok first_entries) ≡ ok (("a", passed) ∷ ("b", failed) ∷ [])
unfolding retained_task_statuses add_statuses entry_trials note_status status merge insert lookup
    lex
first_statuses = refl

retained_task_statuses-IsBest_example :
    IsBest "a" (trials_of is_reward first_entries) (lookup "a" (("a", passed) ∷ ("b", failed) ∷ []))
retained_task_statuses-IsBest_example =
    retained_task_statuses-IsBest is_reward first_entries (("a", passed) ∷ ("b", failed) ∷ [])
      first_statuses "a"

retained_retry_lineage-ends_example : retained_retry_lineage circle 3 second_job ≢ none
retained_retry_lineage-ends_example =
    retained_retry_lineage-ends circle (first_job ∷ second_job ∷ []) resolve-closed second_job

circle_found : retained_retry_lineage circle 3 second_job ≡ some (err (lineage_cycle second_job))
unfolding retained_retry_lineage walk parent_of load_invocation check_version resolve_parent path_eq
circle_found = refl

two_jobs_lineage :
    retained_retry_lineage two_jobs 3 second_job ≡ some (ok (first_job ∷ second_job ∷ []))
unfolding retained_retry_lineage walk parent_of load_invocation check_version resolve_parent path_eq
two_jobs_lineage = refl

retained_retry_lineage-IsChain_example :
    (current : FilePath) × (chain : List FilePath) × (two_jobs.canonicalize second_job ≡ ok current)
    × (first_job ∷ second_job ∷ [] ≡ reverse (current ∷ chain))
    × IsChain two_jobs (current ∷ chain)
    × IsDistinct self (current ∷ chain)
retained_retry_lineage-IsChain_example =
    retained_retry_lineage-IsChain two_jobs 3 second_job (first_job ∷ second_job ∷ [])
      two_jobs_lineage

abbrev first_queue : RetainedRetryQueue
first_queue = record {
  task_names = "b" ∷ [];
  unresolved_tasks = 1;
  lineage = first_job ∷ second_job ∷ [];
}

first_queued :
    retry_queue is_reward two_jobs false false none (first_job ∷ second_job ∷ []) ≡ ok first_queue
unfolding retry_queue overlay retained_task_statuses add_statuses entry_trials note_status status
    merge insert lookup is_retryable path_eq lex
first_queued = refl

retry_queue-members_example :
    (dicts : List (Dict RetainedTrialStatus)) × IsRead is_reward two_jobs
      (first_job ∷ second_job ∷ [])
      dicts
    × ((name : String)
        → IsQueued name
            ("b" ∷ [])
            (latest name none dicts)
            (is_retryable false false)
            (is_selected none))
retry_queue-members_example =
    retry_queue-members is_reward two_jobs false false none (first_job ∷ second_job ∷ [])
      first_queue first_queued

abbrev roots_in_run : FilePath → Result (List FilePath) String
roots_in_run job = ok (("tasks" ∷ "a" ∷ []) ∷ ("tasks" ∷ "b" ∷ []) ∷ [])

abbrev name_at : FilePath → Result String String
name_at root =
    if path_eq root ("tasks" ∷ "a" ∷ [])
    then ok "a"
    else if path_eq root ("tasks" ∷ "b" ∷ [])
    then ok "b"
    else err "no such task"

roots_found :
    retained_retry_task_roots roots_in_run name_at (first_job ∷ []) ("b" ∷ [])
    ≡ ok (("tasks" ∷ "b" ∷ []) ∷ [])
unfolding retained_retry_task_roots roots_of_jobs add_roots is_missing report_missing insert lookup
    path_eq lex
roots_found = refl

retained_retry_task_roots_complete_example :
    (root : FilePath) × Memᴰ root (("tasks" ∷ "b" ∷ []) ∷ []) × (name_at root ≡ ok "b")
retained_retry_task_roots_complete_example =
    retained_retry_task_roots_complete roots_in_run name_at ("b" ∷ []) (first_job ∷ [])
      (("tasks" ∷ "b" ∷ []) ∷ []) roots_found "b" (Memᴰ.head refl)
