-- ===== src/Compare/Scores.antt =====
-- `RunScore` of bin/nanoeval/src/compare.rs: the score of a run over its tasks.
pub mod Laws
use nanoeval.Prelude.{
  ℕ, Bool, List, Option, String, [], all, filter, if◌then◌else◌, length, none, some, true, ◌==◌,
  ◌∷◌,
}
use nanoeval.Prelude.Dict.{values}
use nanoeval.Prelude.Dict.Totals.{sum_of}
use nanoeval.Compare.{TaskScore, pass_at_k}
use nanoeval.Compare.Local.{LocalJob}

pub data ThinkingProvenance : Type 0 where
  runtime_events published_config : ThinkingProvenance

pub record ThinkingEvidence : Type 0 where
  pub configured : List String
  pub observed : List String
  pub observed_trials : ℕ
  pub total_trials : ℕ
  pub provenance : ThinkingProvenance

pub record RunScoreInput : Type 0 where
  pub submission : String
  pub runs : List String
  pub agent : String
  pub agent_version : Option String
  pub agent_import_paths : List String
  pub model : String
  pub thinking : ThinkingEvidence
  pub exact_revision : Bool
  pub task_scores : List TaskScore

pub record RunScore : Type 0 where
  pub submission : String
  pub runs : List String
  pub agent : String
  pub agent_version : Option String
  pub agent_import_paths : List String
  pub model : String
  pub thinking : ThinkingEvidence
  pub exact_revision : Bool
  pub tasks : ℕ
  pub k : Option ℕ
  pub pass_at_k_tasks : ℕ
  pub trials : ℕ
  pub passes : ℕ
  pub errors : ℕ
  pub trajectories : ℕ
  pub task_scores : List TaskScore

-- The number of trials of a task, where it is the same for all tasks.
unfoldable pub common_trials : List TaskScore → Option ℕ
common_trials [] = none
common_trials (first ∷ later) =
    if all (λ task. task.trials == first.trials) (first ∷ later) then some first.trials else none

-- `RunScore::new`
unfoldable pub new_score : RunScoreInput → RunScore
unfolding common_trials pass_at_k
new_score input = record {
  submission = input.submission;
  runs = input.runs;
  agent = input.agent;
  agent_version = input.agent_version;
  agent_import_paths = input.agent_import_paths;
  model = input.model;
  thinking = input.thinking;
  exact_revision = input.exact_revision;
  tasks = length input.task_scores;
  k = common_trials input.task_scores;
  pass_at_k_tasks = length (filter pass_at_k input.task_scores);
  trials = sum_of (λ task. task.trials) input.task_scores;
  passes = sum_of (λ task. task.passes) input.task_scores;
  errors = sum_of (λ task. task.errors) input.task_scores;
  trajectories = sum_of (λ task. task.trajectories) input.task_scores;
  task_scores = input.task_scores;
}

-- `RunScore::local`, of the parts of a job
unfoldable pub local_score : LocalJob → RunScore
unfolding new_score
local_score job =
    let task_scores = values job.tasks in
    new_score (record {
      submission = "nanoeval";
      runs = "local" ∷ [];
      agent = job.agent;
      agent_version = job.agent_version;
      agent_import_paths = [];
      model = job.model;
      thinking = record {
        configured = job.thinking_configured;
        observed = job.thinking_observed;
        observed_trials = job.thinking_observed_trials;
        total_trials = sum_of (λ task. task.trials) task_scores;
        provenance = runtime_events;
      };
      exact_revision = true;
      task_scores = task_scores;
    })
