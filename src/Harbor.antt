-- ===== src/Harbor.antt =====
-- The results file of a job, of crates/nanoeval-harbor/src/lib.rs: how the results and failures of a
-- run are added to those of the job that it resumes. `F` is the type of floating-point numbers with
-- the additions that the code makes, `Time` that of times; a reward is the text that
-- `harbor_float_key` gives. The metrics, of which there are none, are left out.
pub mod Stats
pub mod Passes
mod Balance
mod Totals
mod Eligible
mod Groups
mod Tests
use nanoeval.Prelude.{List, Option, String, none, some, ℕ}
use nanoeval.Prelude.Dict.{Dict, insert, lookup}

-- `EvalResult`, as far as this file counts it
pub record TrialResult (F : Type 0) : Type 0 where
  pub attempt_id : String
  pub trial_name : String
  pub model : String
  pub rewards : Dict String
  pub input_tokens : ℕ
  pub cached_input_tokens : ℕ
  pub output_tokens : ℕ
  pub cost_usd : Option F

-- `EvalFailure`, with the name that `harbor_exception_type` gives to its kind
pub record TrialFailure : Type 0 where
  pub attempt_id : String
  pub trial_name : String
  pub model : String
  pub exception_type : String

pub record HarborAgentDatasetStats (F : Type 0) : Type 0 where
  pub n_trials : ℕ
  pub n_errors : ℕ
  pub pass_at_k : List (ℕ × F)
  pub reward_stats : Dict (Dict (List String))
  pub exception_stats : Dict (List String)

pub record HarborJobStats (F : Type 0) : Type 0 where
  pub n_completed_trials : ℕ
  pub n_errored_trials : ℕ
  pub n_running_trials : ℕ
  pub n_pending_trials : ℕ
  pub n_cancelled_trials : ℕ
  pub n_retries : ℕ
  pub evals : Dict (HarborAgentDatasetStats F)
  pub n_input_tokens : ℕ
  pub n_cache_tokens : ℕ
  pub n_output_tokens : ℕ
  pub cost_usd : Option F

pub record HarborJobResult (F Time : Type 0) : Type 0 where
  pub id : String
  pub started_at : Time
  pub updated_at : Time
  pub finished_at : Option Time
  pub n_total_trials : ℕ
  pub stats : HarborJobStats F

pub record HarborJobDelta (F : Type 0) : Type 0 where
  pub eval_key : Option String
  pub eval_stats : HarborAgentDatasetStats F
  pub input_tokens : ℕ
  pub cached_tokens : ℕ
  pub output_tokens : ℕ
  pub cost_usd : Option F

-- `unwrap_or`
abbrev pub get_or_else : {A : Type 0} → Option A → A → A
get_or_else none default = default
get_or_else (some a) default = a

-- `entry(key).or_default()`, changed in place
abbrev pub change_entry : {V : Type 0} → V → String → (V → V) → Dict V → Dict V
change_entry default name change m = insert name (change (get_or_else (lookup name m) default)) m
