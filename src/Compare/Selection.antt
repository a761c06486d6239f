-- ===== src/Compare/Selection.antt =====
-- Selectors of bin/nanoeval/src/compare.rs: of a task of a retained job, and of an attempt of it.
pub mod Laws
use nanoeval.Prelude.Dict.{lookup, keys}
use nanoeval.Prelude.{
  Bool, List, Option, Result, String, [], err, filter, flat_map, if◌then◌else◌, length, map, none,
  not, ok, ok_or, some, str_eq, ◌>>=◌, ◌∷◌, contains, is_present,
}
use nanoeval.Prelude.Order.{text_order}
use nanoeval.Prelude.Sets.{insert_member}
use nanoeval.Compare.{
  CompareError, TaskScore, no_local_attempts, one_task_needed, task_selector, trial_selector,
}
use nanoeval.Compare.Local.{LocalJob, LocalAttempt}

-- `filter_map` and `collect` into a set
abbrev pub present_members : List (Option String) → List String
present_members [] = []
present_members (none ∷ later) = present_members later
present_members (some member ∷ later) = insert_member text_order member (present_members later)

-- `LocalJob::select_task`
unfoldable pub select_task : {E : Type 0} → String → LocalJob → Result LocalJob (CompareError E)
select_task needle job = elim (filter (λ task. contains task needle) (keys job.tasks)) [
  | task ∷ [] ↦
      let trials = filter (λ e. str_eq (e.0) task) job.trials in
      let attempts = flat_map (λ e. e.1) trials in
      ok (record job {
        tasks = filter (λ e. str_eq (e.0) task) job.tasks;
        trials = trials;
        thinking_configured = present_members (map (λ a. a.configured_thinking) attempts);
        thinking_observed = present_members (map (λ a. a.observed_thinking) attempts);
        thinking_observed_trials = length (filter (λ a. is_present a.observed_thinking) attempts);
      })
  | matches ↦ err (task_selector needle matches)
]

-- `LocalJob::single_task`
unfoldable pub single_task : {E : Type 0} → LocalJob → Result TaskScore (CompareError E)
single_task job = elim job.tasks [ (name, score) ∷ [] ↦ ok score | tasks ↦ err one_task_needed ]

-- `find`
abbrev pub find_first : {A : Type 0} → (A → Bool) → List A → Option A
find_first p [] = none
find_first p (x ∷ xs) = let rest = find_first p xs in if p x then some x else rest

-- `first`
abbrev pub first? : {A : Type 0} → List A → Option A
first? [] = none
first? (x ∷ xs) = some x

-- The failed attempt that is shown where none is selected, or else the first.
abbrev pub default_attempt : List LocalAttempt → Option LocalAttempt
default_attempt attempts = elim (find_first (λ a. not a.passed) attempts) [
  | some attempt ↦ some attempt
  | none ↦ first? attempts
]

-- the `match` on the selector, over the attempts of the task
unfoldable pub pick_attempt :
    {E : Type 0} → Option String → List LocalAttempt → Result LocalAttempt (CompareError E)
pick_attempt none attempts = ok_or (default_attempt attempts) no_local_attempts
pick_attempt (some selector) attempts =
    elim (filter (λ a. contains a.trial_name selector) attempts) [
      | attempt ∷ [] ↦ ok attempt
      | matches ↦ err (trial_selector selector (map (λ a. a.trial_name) matches))
    ]

-- `LocalJob::select_attempt`
unfoldable pub select_attempt :
    {E : Type 0} → Option String → LocalJob → Result LocalAttempt (CompareError E)
unfolding single_task pick_attempt lookup
select_attempt selector job = do
  task ← single_task job
  attempts ← ok_or (lookup task.task_name job.trials) no_local_attempts
  pick_attempt selector attempts
