-- ===== src/Atif.antt =====
-- crates/nanoeval/src/atif.rs: the trajectory of an attempt, built event by event. Sums of `u64` and
-- numbers of a `u32` are natural numbers; `Cost` is the type of an amount of money, and `E` the error
-- of the JSON parser. A raw JSON value is its text.
pub mod Turns
pub mod Events
pub mod Trajectory
pub mod Pairing
pub mod Steps
mod Tests
use nanoeval.Prelude.{ℕ, List, Option, String, [], length, none, some}
use nanoeval.Prelude.Dict.Totals.{sum_of}

pub record UsageTotals : Type 0 where
  pub input_tokens : ℕ
  pub cached_input_tokens : ℕ
  pub cache_write_input_tokens : ℕ
  pub output_tokens : ℕ
  pub reasoning_output_tokens : ℕ
  pub total_tokens : ℕ

-- The fields of `AgentMetadata` that the trajectory copies one by one.
pub record AgentMetadata : Type 0 where
  pub transport : String
  pub orchestration : String
  pub duration_ns : ℕ
  pub connection_attempts : ℕ
  pub websocket_reconnects : ℕ
  pub connection_duration_ns : ℕ
  pub model_duration_ns : ℕ
  pub warmup_duration_ns : ℕ
  pub tool_work_duration_ns : ℕ
  pub tool_wall_duration_ns : ℕ
  pub usage : UsageTotals
  pub warmup_usage : UsageTotals

pub record AgentResult (Cost : Type 0) : Type 0 where
  pub final_message : String
  pub model : String
  pub effort : String
  pub model_calls : ℕ
  pub tool_calls : ℕ
  pub usage : UsageTotals
  pub cost_usd : Option Cost
  pub metadata : AgentMetadata

-- `extra` of a call is its `model_call_index`
pub record AtifToolCall : Type 0 where
  pub tool_call_id : String
  pub function_name : String
  pub arguments : String
  pub model_call_index : ℕ

-- `extra` of a result is its status and its duration
pub record AtifObservationResult : Type 0 where
  pub source_call_id : String
  pub content : String
  pub call_status : String
  pub duration_ns : ℕ

pub record AtifModelCallMetrics : Type 0 where
  pub model_call_index : ℕ
  pub attempt : ℕ
  pub connection_generation : ℕ
  pub duration_ns : ℕ
  pub time_to_first_event_ns : ℕ
  pub time_to_first_output_ns : Option ℕ
  pub tool_calls : ℕ
  pub cache_write_input_tokens : ℕ
  pub reasoning_output_tokens : ℕ

-- `cost_usd` of a call is never there
pub record AtifMetrics : Type 0 where
  pub prompt_tokens : ℕ
  pub completion_tokens : ℕ
  pub cached_tokens : ℕ
  pub extra : AtifModelCallMetrics

pub data AtifSource : Type 0 where
  user_source agent_source : AtifSource

-- `terminal_event_type` and `terminal_payload`
pub record AtifStepExtra : Type 0 where
  pub terminal_event_type : String
  pub terminal_payload : AgentMetadata

pub record AtifStep : Type 0 where
  pub step_id : ℕ
  pub source : AtifSource
  pub model_name : Option String
  pub reasoning_effort : Option String
  pub message : String
  pub reasoning_content : Option String
  pub tool_calls : Option (List AtifToolCall)
  pub observation : Option (List AtifObservationResult)
  pub metrics : Option AtifMetrics
  pub llm_call_count : Option ℕ
  pub extra : Option AtifStepExtra

pub record AtifRuntimeMetrics : Type 0 where
  pub connection_attempts : ℕ
  pub websocket_reconnects : ℕ
  pub connection_duration_ns : ℕ
  pub model_duration_ns : ℕ
  pub warmup_duration_ns : ℕ
  pub tool_work_duration_ns : ℕ
  pub tool_wall_duration_ns : ℕ
  pub warmup_usage : UsageTotals
  pub cache_write_input_tokens : ℕ
  pub reasoning_output_tokens : ℕ

pub record AtifFinalMetrics (Cost : Type 0) : Type 0 where
  pub total_prompt_tokens : ℕ
  pub total_completion_tokens : ℕ
  pub total_cached_tokens : ℕ
  pub total_cost_usd : Option Cost
  pub total_steps : ℕ
  pub model_calls : ℕ
  pub tool_calls : ℕ
  pub duration_ns : ℕ
  pub runtime : AtifRuntimeMetrics

-- The version, a constant of the build, is left out.
pub record AtifAgent : Type 0 where
  pub name : String
  pub model_name : String
  pub transport : String
  pub orchestration : String

pub record AtifTrajectory (Cost : Type 0) : Type 0 where
  pub session_id : String
  pub agent : AtifAgent
  pub steps : List AtifStep
  pub final_metrics : AtifFinalMetrics Cost

-- `tool_call_count` and `observation_count`
unfoldable pub tool_call_count : {Cost : Type 0} → AtifTrajectory Cost → ℕ
tool_call_count trajectory =
    sum_of (λ (step : AtifStep). elim step.tool_calls [ none ↦ 0 | some calls ↦ length calls ])
      trajectory.steps

unfoldable pub observation_count : {Cost : Type 0} → AtifTrajectory Cost → ℕ
observation_count trajectory =
    sum_of (λ (step : AtifStep). elim step.observation [ none ↦ 0 | some results ↦ length results ])
      trajectory.steps

pub record AtifTurn : Type 0 where
  pub model_name : Option String
  pub reasoning_effort : Option String
  pub message : String
  pub reasoning : String
  pub tool_calls : List AtifToolCall
  pub observations : List AtifObservationResult
  pub metrics : Option AtifMetrics

-- `AtifTurn::default`
abbrev pub empty_turn : AtifTurn
empty_turn = record {
  model_name = none;
  reasoning_effort = none;
  message = "";
  reasoning = "";
  tool_calls = [];
  observations = [];
  metrics = none;
}
