-- ===== src/Compare.antt =====
-- The comparison command, bin/nanoeval/src/compare.rs: the retained trials of a job, the score of a
-- run, and the published runs beside it. `Reward` is the type of a reward, and `E` is the error of
-- the operating system, of the parser and of the published archive.
pub mod Local
pub mod Selection
pub mod Scores
pub mod Published
pub mod Show
mod Tests
use nanoeval.Prelude.{
  ℕ, Bool, List, Option, Result, String, err, false, ltb, none, ok, some, true, ◌+◌,
}

pub data CompareError (E : Type 0) : Type 0 where
  other : E → CompareError E
  incomplete_job : CompareError E
  event_kind : String → CompareError E
  several_checksums : String → CompareError E
  no_completed_trials : CompareError E
  several_agents : ℕ → CompareError E
  task_selector : String → List String → CompareError E
  one_task_needed : CompareError E
  no_local_attempts : CompareError E
  trial_selector : String → List String → CompareError E
  show_unmatched : String → CompareError E
  show_ambiguous : String → List String → CompareError E
  archive_changed : CompareError E
  checksum_lost : CompareError E

abbrev pub lift : {A E : Type 0} → Result A E → Result A (CompareError E)
lift (ok a) = ok a
lift (err error) = err (other error)

pub record TaskScore : Type 0 where
  pub task_name : String
  pub task_checksum : String
  pub trials : ℕ
  pub passes : ℕ
  pub errors : ℕ
  pub trajectories : ℕ

-- `TaskScore::pass_at_k`
unfoldable pub pass_at_k : TaskScore → Bool
pass_at_k score = ltb 0 score.passes

-- the score of a task without a trial
abbrev pub unscored : String → String → TaskScore
unscored task_name task_checksum = record {
  task_name = task_name;
  task_checksum = task_checksum;
  trials = 0;
  passes = 0;
  errors = 0;
  trajectories = 0;
}

-- `usize::from` of a test
abbrev pub count : Bool → ℕ
count true = 1
count false = 0

-- One more trial in the score of a task.
abbrev pub scored : TaskScore → Bool → Bool → Bool → TaskScore
scored score is_pass is_error is_traced = record score {
  trials = score.trials + 1;
  passes = score.passes + count is_pass;
  errors = score.errors + count is_error;
  trajectories = score.trajectories + count is_traced;
}

-- `entry(..).or_insert_with(..)`
abbrev pub or_insert : {V : Type 0} → Option V → V → V
or_insert none fresh = fresh
or_insert (some v) fresh = v
