-- ===== src/Atif/Events.antt =====
-- `AtifBuilder::apply` of crates/nanoeval/src/atif.rs: one event of the agent.
use nanoeval.Prelude.{
  ℕ, List, Option, Result, String, [], if◌then◌else◌, none, not, ok, some, str_eq, ◌&&◌, ◌>>=◌, ◌∷◌,
}
use Prim.Native.String.{◌++◌}
use nanoeval.Prelude.Dict.{Dict, insert, lookup}
use nanoeval.Prelude.Lines.{trim_start}
use nanoeval.Atif.{AtifTurn, AtifMetrics}
use nanoeval.Atif.Turns.{update_turn, Turns}
use text.Mathlib.Text.{starts_with}
use mathlib.Core.List

pub record TokenDetails : Type 0 where
  pub cached_tokens : ℕ
  pub cache_write_tokens : ℕ

-- The usage that the model reports; `reasoning_tokens` is its `output_tokens_details`.
pub record Usage : Type 0 where
  pub input_tokens : ℕ
  pub input_tokens_details : Option TokenDetails
  pub output_tokens : ℕ
  pub reasoning_tokens : Option ℕ

pub record ModelCallCompletedPayload : Type 0 where
  pub call_index : ℕ
  pub model : String
  pub attempt : ℕ
  pub connection_generation : ℕ
  pub duration_ns : ℕ
  pub time_to_first_event_ns : ℕ
  pub time_to_first_output_ns : Option ℕ
  pub tool_calls : ℕ
  pub usage : Option Usage

pub record ToolCallPayload : Type 0 where
  pub call_id : String
  pub tool : String
  pub arguments : String
  pub model_call_index : ℕ

pub record ToolResultPayload : Type 0 where
  pub call_id : String
  pub call_status : String
  pub duration_ns : ℕ
  pub result : String

-- The kinds of events that are looked at, with what their payload reads as.
pub data EventKind (E : Type 0) : Type 0 where
  model_call_started : Result (ℕ × String × String) E → EventKind E
  assistant_message : Result (ℕ × String) E → EventKind E
  reasoning_summary_delta : Result (ℕ × String) E → EventKind E
  model_call_completed : Result ModelCallCompletedPayload E → EventKind E
  tool_call : Result ToolCallPayload E → EventKind E
  tool_result : Result ToolResultPayload E → EventKind E
  unrelated : EventKind E

pub record AgentEvent (E : Type 0) : Type 0 where
  pub request_id : String
  pub kind : EventKind E

pub record AtifBuilder : Type 0 where
  pub session_id : Option String
  pub turns : Turns
  pub tool_turns : Dict ℕ

-- `AtifBuilder::default`
abbrev pub empty_builder : AtifBuilder
empty_builder = record { session_id = none; turns = []; tool_turns = [] }

-- `append_message`
unfoldable pub append_message : String → String → String
append_message message next =
    (if not (str_eq message "") && not (str_eq next "") then message ++ "\n\n" else message) ++ next

-- `map_or(0, ..)`
abbrev pub or_zero : {A : Type 0} → Option A → (A → ℕ) → ℕ
or_zero none f = 0
or_zero (some a) f = f a

-- `AtifMetrics::from_call`
unfoldable pub from_call : ModelCallCompletedPayload → Usage → AtifMetrics
from_call call usage = record {
  prompt_tokens = usage.input_tokens;
  completion_tokens = usage.output_tokens;
  cached_tokens = or_zero usage.input_tokens_details (λ details. details.cached_tokens);
  extra = record {
    model_call_index = call.call_index;
    attempt = call.attempt;
    connection_generation = call.connection_generation;
    duration_ns = call.duration_ns;
    time_to_first_event_ns = call.time_to_first_event_ns;
    time_to_first_output_ns = call.time_to_first_output_ns;
    tool_calls = call.tool_calls;
    cache_write_input_tokens =
        or_zero usage.input_tokens_details (λ details. details.cache_write_tokens);
    reasoning_output_tokens = or_zero usage.reasoning_tokens (λ n. n);
  };
}

-- What each kind of event does to a turn.
abbrev pub started : String → String → AtifTurn → AtifTurn
started model effort turn = record turn { model_name = some model; reasoning_effort = some effort }

unfoldable pub said : String → AtifTurn → AtifTurn
unfolding append_message
said text turn = record turn { message = append_message turn.message text }

abbrev pub reasoned : String → AtifTurn → AtifTurn
reasoned text turn = record turn { reasoning = turn.reasoning ++ text }

unfoldable pub completed : ModelCallCompletedPayload → AtifTurn → AtifTurn
unfolding from_call
completed payload turn = record turn {
  model_name = some payload.model;
  metrics = elim payload.usage [ none ↦ none | some usage ↦ some (from_call payload usage) ];
}

abbrev pub called : ToolCallPayload → String → AtifTurn → AtifTurn
called payload arguments turn = record turn {
  tool_calls = List.◌++◌ turn.tool_calls (
      record {
        tool_call_id = payload.call_id;
        function_name = payload.tool;
        arguments = arguments;
        model_call_index = payload.model_call_index;
      }
      ∷ []);
}

abbrev pub observed : ToolResultPayload → AtifTurn → AtifTurn
observed payload turn = record turn {
  observations = List.◌++◌ turn.observations (
      record {
        source_call_id = payload.call_id;
        content = payload.result;
        call_status = payload.call_status;
        duration_ns = payload.duration_ns;
      }
      ∷ []);
}

-- `update_turn` in the builder
abbrev pub with_turn : ℕ → (AtifTurn → AtifTurn) → AtifBuilder → AtifBuilder
with_turn index f builder = record builder { turns = update_turn index f builder.turns }

-- the session of the first event
abbrev pub with_session : String → AtifBuilder → AtifBuilder
with_session request_id builder = record builder {
  session_id = elim builder.session_id [ none ↦ some request_id | some session ↦ some session ];
}

-- `tool_turns.insert`, and the call in its turn
abbrev pub with_call : ToolCallPayload → String → AtifBuilder → AtifBuilder
with_call payload arguments builder = record builder {
  turns = update_turn payload.model_call_index (called payload arguments) builder.turns;
  tool_turns = insert payload.call_id payload.model_call_index builder.tool_turns;
}

-- the result of a call that is known
abbrev pub with_result : ToolResultPayload → AtifBuilder → AtifBuilder
with_result payload builder = elim (lookup payload.call_id builder.tool_turns) [
  | none ↦ builder
  | some index ↦ with_turn index (observed payload) builder
]

module _ {E : Type 0} (from_string : String → Result String E) where
  -- `object_arguments`; `from_string` is `RawValue::from_string`.
  unfoldable pub object_arguments : String → Result String E
  object_arguments arguments =
      if starts_with (trim_start arguments) "{"
      then ok arguments
      else from_string (("{\"raw\":" ++ arguments) ++ "}")

  -- the `match` on the kind
  unfoldable pub apply_kind : AtifBuilder → EventKind E → Result AtifBuilder E
  unfolding said completed object_arguments
  apply_kind builder (model_call_started read) = do
    payload ← read
    ok (with_turn (payload.0) (started (payload.1) (payload.2)) builder)
  apply_kind builder (assistant_message read) = do
    payload ← read
    ok (with_turn (payload.0) (said (payload.1)) builder)
  apply_kind builder (reasoning_summary_delta read) = do
    payload ← read
    ok (with_turn (payload.0) (reasoned (payload.1)) builder)
  apply_kind builder (model_call_completed read) = do
    payload ← read
    ok (with_turn payload.call_index (completed payload) builder)
  apply_kind builder (tool_call read) = do
    payload ← read
    arguments ← object_arguments payload.arguments
    ok (with_call payload arguments builder)
  apply_kind builder (tool_result read) = do payload ← read; ok (with_result payload builder)
  apply_kind builder unrelated = ok builder

  -- `AtifBuilder::apply`
  unfoldable pub apply : AtifBuilder → AgentEvent E → Result AtifBuilder E
  unfolding apply_kind
  apply builder event = apply_kind (with_session event.request_id builder) event.kind

  -- the events of a stream, in their order
  unfoldable pub apply_all : AtifBuilder → List (AgentEvent E) → Result AtifBuilder E
  unfolding apply
  apply_all builder [] = ok builder
  apply_all builder (event ∷ events) = do next ← apply builder event; apply_all next events
