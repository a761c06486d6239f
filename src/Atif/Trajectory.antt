-- ===== src/Atif/Trajectory.antt =====
-- `AtifBuilder::finish` and `finish_failure` of crates/nanoeval/src/atif.rs: the trajectory of the
-- turns. `default_model` is the name of the model of the `nanocodex` package.
use nanoeval.Prelude.{
  ℕ, Bool, List, Option, String, [], false, if◌then◌else◌, length, min, none, some, str_eq, true,
  ◌+◌, ◌∷◌,
}
use nanoeval.Prelude.Dict.Totals.{sum_of}
use nanoeval.Atif.{
  AtifTurn, AgentMetadata, AgentResult, AtifMetrics, AtifRuntimeMetrics, AtifStep, AtifTrajectory,
  UsageTotals, agent_source, user_source,
}
use nanoeval.Atif.Turns.{Turns}
use nanoeval.Atif.Events.{AtifBuilder, or_zero}

-- `u32::try_from(..).unwrap_or(u32::MAX)`
abbrev pub as_u32 : ℕ → ℕ
as_u32 n = min n 4294967295

abbrev pub nonempty : {A : Type 0} → List A → Option (List A)
nonempty [] = none
nonempty (x ∷ xs) = some (x ∷ xs)

abbrev pub nonempty_text : String → Option String
nonempty_text text = if str_eq text "" then none else some text

-- `AtifStep::user`
abbrev pub user_step : ℕ → String → AtifStep
user_step step_id message = record {
  step_id = step_id;
  source = user_source;
  model_name = none;
  reasoning_effort = none;
  message = message;
  reasoning_content = none;
  tool_calls = none;
  observation = none;
  metrics = none;
  llm_call_count = none;
  extra = none;
}

-- `AtifTurn::into_failure_step`
abbrev pub into_failure_step : ℕ → AtifTurn → AtifStep
into_failure_step step_id turn = record {
  step_id = step_id;
  source = agent_source;
  model_name = turn.model_name;
  reasoning_effort = turn.reasoning_effort;
  message = turn.message;
  reasoning_content = nonempty_text turn.reasoning;
  tool_calls = nonempty turn.tool_calls;
  observation = nonempty turn.observations;
  metrics = turn.metrics;
  llm_call_count = some 1;
  extra = none;
}

-- `AtifTurn::into_step`
abbrev pub into_step : {Cost : Type 0} → AgentResult Cost → ℕ → AtifTurn → AtifStep
into_step result step_id turn = record (into_failure_step step_id turn) {
  model_name = elim turn.model_name [ some name ↦ some name | none ↦ some result.model ];
  reasoning_effort = elim turn.reasoning_effort [
    | some effort ↦ some effort
    | none ↦ some result.effort
  ];
}

-- the steps of the turns, the first with the number `offset`
abbrev pub number_steps : (ℕ → AtifTurn → AtifStep) → ℕ → Turns → List AtifStep
number_steps step offset [] = []
number_steps step offset ((index, turn) ∷ later) =
    step (as_u32 offset) turn ∷ number_steps step (offset + 1) later

-- Changes the last step of an agent, if there is one.
abbrev pub has_agent_step : List AtifStep → Bool
has_agent_step [] = false
has_agent_step (step ∷ later) =
    let rest = has_agent_step later in elim step.source [ agent_source ↦ true | user_source ↦ rest ]

abbrev pub change_last : (AtifStep → AtifStep) → List AtifStep → List AtifStep
change_last f [] = []
change_last f (step ∷ later) =
    let rest = change_last f later in
    if has_agent_step later
    then step ∷ rest
    else elim step.source [ agent_source ↦ f step ∷ later | user_source ↦ step ∷ later ]

-- what is put into the last step
abbrev pub terminal : {Cost : Type 0} → AgentResult Cost → AtifStep → AtifStep
terminal result step = record step {
  message = if str_eq step.message "" then result.final_message else step.message;
  extra =
      some (record { terminal_event_type = "run.completed"; terminal_payload = result.metadata });
}

-- `AtifRuntimeMetrics::from`
abbrev pub runtime_metrics : AgentMetadata → AtifRuntimeMetrics
runtime_metrics metadata = record {
  connection_attempts = metadata.connection_attempts;
  websocket_reconnects = metadata.websocket_reconnects;
  connection_duration_ns = metadata.connection_duration_ns;
  model_duration_ns = metadata.model_duration_ns;
  warmup_duration_ns = metadata.warmup_duration_ns;
  tool_work_duration_ns = metadata.tool_work_duration_ns;
  tool_wall_duration_ns = metadata.tool_wall_duration_ns;
  warmup_usage = metadata.warmup_usage;
  cache_write_input_tokens = metadata.usage.cache_write_input_tokens;
  reasoning_output_tokens = metadata.usage.reasoning_output_tokens;
}

abbrev pub no_usage : UsageTotals
no_usage = record {
  input_tokens = 0;
  cached_input_tokens = 0;
  cache_write_input_tokens = 0;
  output_tokens = 0;
  reasoning_output_tokens = 0;
  total_tokens = 0;
}

-- `AtifRuntimeMetrics::default`
abbrev pub no_runtime : AtifRuntimeMetrics
no_runtime = record {
  connection_attempts = 0;
  websocket_reconnects = 0;
  connection_duration_ns = 0;
  model_duration_ns = 0;
  warmup_duration_ns = 0;
  tool_work_duration_ns = 0;
  tool_wall_duration_ns = 0;
  warmup_usage = no_usage;
  cache_write_input_tokens = 0;
  reasoning_output_tokens = 0;
}

-- `unwrap_or_default`
abbrev pub or_empty : Option String → String
or_empty none = ""
or_empty (some text) = text

unfoldable pub finish :
    {Cost : Type 0} → AtifBuilder → String → AgentResult Cost → AtifTrajectory Cost
finish builder prompt result =
    let steps =
      change_last (terminal result)
        (user_step 1 prompt ∷ number_steps (into_step result) 2 builder.turns) in
    record {
      session_id = or_empty builder.session_id;
      agent = record {
        name = "nanocodex";
        model_name = result.model;
        transport = result.metadata.transport;
        orchestration = result.metadata.orchestration;
      };
      steps = steps;
      final_metrics = record {
        total_prompt_tokens = result.usage.input_tokens;
        total_completion_tokens = result.usage.output_tokens;
        total_cached_tokens = result.usage.cached_input_tokens;
        total_cost_usd = result.cost_usd;
        total_steps = as_u32 (length steps);
        model_calls = result.model_calls;
        tool_calls = result.tool_calls;
        duration_ns = result.metadata.duration_ns;
        runtime = runtime_metrics result.metadata;
      };
    }

-- the sum of a number of the metrics that there are
abbrev pub metric_total : (AtifMetrics → ℕ) → Turns → ℕ
metric_total f turns = sum_of (λ (e : ℕ × AtifTurn). or_zero (e.1).metrics f) turns

-- the first model that a turn names
abbrev pub first_model : String → Turns → String
first_model default_model [] = default_model
first_model default_model ((index, turn) ∷ later) =
    let rest = first_model default_model later in
    elim turn.model_name [ some name ↦ name | none ↦ rest ]

unfoldable pub finish_failure :
    {Cost : Type 0} → String → AtifBuilder → String → AtifTrajectory Cost
finish_failure default_model builder prompt =
    let turns = builder.turns in
    let steps = user_step 1 prompt ∷ number_steps into_failure_step 2 turns in
    record {
      session_id = or_empty builder.session_id;
      agent = record {
        name = "nanocodex";
        model_name = first_model default_model turns;
        transport = "responses_websocket_v2";
        orchestration = "local_code_mode";
      };
      steps = steps;
      final_metrics = record {
        total_prompt_tokens = metric_total (λ metrics. metrics.prompt_tokens) turns;
        total_completion_tokens = metric_total (λ metrics. metrics.completion_tokens) turns;
        total_cached_tokens = metric_total (λ metrics. metrics.cached_tokens) turns;
        total_cost_usd = none;
        total_steps = as_u32 (length steps);
        model_calls = as_u32 (length turns);
        tool_calls = as_u32 (sum_of (λ (e : ℕ × AtifTurn). length (e.1).tool_calls) turns);
        duration_ns = metric_total (λ metrics. metrics.extra.duration_ns) turns;
        runtime = no_runtime;
      };
    }
