-- ===== src/Atif/Tests.antt =====
-- An attempt of two model calls, the first with a tool call and its result.
use nanoeval.Prelude.Dict.{lookup, insert}
use nanoeval.Prelude.{ℕ, List, Result, String, [], arith, none, ok, refl, some, ◌∷◌, ◌≡◌}
use nanoeval.Atif.{AgentMetadata, AgentResult, empty_turn, observation_count, tool_call_count}
use nanoeval.Atif.Turns.{update_turn}
use nanoeval.Atif.Events.{
  apply_all, AgentEvent, AtifBuilder, EventKind, append_message, apply, apply_kind,
  assistant_message, completed, empty_builder, model_call_started, object_arguments,
  reasoning_summary_delta, said, tool_call, tool_result, unrelated,
}
use nanoeval.Atif.Trajectory.{finish, finish_failure, no_usage}
use nanoeval.Atif.Steps.{finish-IsWellFormed, IsWellFormed}

abbrev as_is : String → Result String String
as_is text = ok text

abbrev event_of : EventKind String → AgentEvent String
event_of kind = record { request_id = "session"; kind = kind }

abbrev two_calls : List (AgentEvent String)
two_calls =
    event_of (model_call_started (ok (1, "gpt", "low")))
    ∷ event_of (assistant_message (ok (1, "I will inspect.")))
    ∷ event_of (
        tool_call (
          ok (record {
            call_id = "call-1";
            tool = "exec";
            arguments = "\"pwd\"";
            model_call_index = 1;
          })))
    ∷ event_of (
        tool_result (
          ok (record {
            call_id = "call-1";
            call_status = "completed";
            duration_ns = 42;
            result = "\"/workspace\"";
          })))
    ∷ event_of (
        tool_result (
          ok (record {
            call_id = "call-9";
            call_status = "completed";
            duration_ns = 1;
            result = "\"lost\"";
          })))
    ∷ event_of (reasoning_summary_delta (ok (2, "Done")))
    ∷ event_of unrelated
    ∷ []

abbrev built : AtifBuilder
built = record {
  session_id = some "session";
  turns =
      (
        1,
        record {
          model_name = some "gpt";
          reasoning_effort = some "low";
          message = "I will inspect.";
          reasoning = "";
          tool_calls =
              record {
                tool_call_id = "call-1";
                function_name = "exec";
                arguments = "{\"raw\":\"pwd\"}";
                model_call_index = 1;
              }
              ∷ [];
          observations =
              record {
                source_call_id = "call-1";
                content = "\"/workspace\"";
                call_status = "completed";
                duration_ns = 42;
              }
              ∷ [];
          metrics = none;
        },
      )
      ∷ (2, record empty_turn { reasoning = "Done" })
      ∷ [];
  tool_turns = ("call-1", 1) ∷ [];
}

events_apply : apply_all as_is empty_builder two_calls ≡ ok built
unfolding apply_all apply apply_kind said completed object_arguments append_message update_turn
    insert lookup
events_apply = refl

abbrev no_metadata : AgentMetadata
no_metadata = record {
  transport = "responses_websocket_v2";
  orchestration = "local_code_mode";
  duration_ns = 0;
  connection_attempts = 0;
  websocket_reconnects = 0;
  connection_duration_ns = 0;
  model_duration_ns = 0;
  warmup_duration_ns = 0;
  tool_work_duration_ns = 0;
  tool_wall_duration_ns = 0;
  usage = no_usage;
  warmup_usage = no_usage;
}

abbrev final_result : AgentResult ℕ
final_result = record {
  final_message = "Finished.";
  model = "gpt";
  effort = "low";
  model_calls = 2;
  tool_calls = 1;
  usage = no_usage;
  cost_usd = none;
  metadata = no_metadata;
}

finish-IsWellFormed_example :
    IsWellFormed 2 (finish built "Do it." final_result)
    × IsWellFormed {Cost = ℕ} 2 (finish_failure "gpt" built "Do it.")
finish-IsWellFormed_example =
    finish-IsWellFormed as_is "gpt" "Do it." final_result two_calls built events_apply (omega arith)

trajectory_counted :
    (tool_call_count (finish built "Do it." final_result) ≡ 1)
    × (observation_count (finish built "Do it." final_result) ≡ 1)
unfolding tool_call_count observation_count finish
trajectory_counted = (refl, refl)
