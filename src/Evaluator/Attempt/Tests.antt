-- ===== src/Evaluator/Attempt/Tests.antt =====
-- One attempt that passes and one whose agent falls silent.
use nanoeval.Prelude.{
  ℕ, Bool, List, String, [], err, false, ltb, map, none, ok, refl, some, true, ◌==◌, ◌∷◌, ◌≡◌,
}
use nanoeval.Job.Sample.{a_x}
use nanoeval.Errors.{AgentErrors}
use nanoeval.Evaluator.Attempt.{
  run_task, emit, AttemptEmitter, Emitting, EvalResult, Phases, timed_out,
}
use nanoeval.Evaluator.Attempt.Events.{IsAttemptLog, run_task-IsAttemptLog}

abbrev no_details : AgentErrors ℕ
no_details = record {
  ResponsesError = ℕ;
  responses_error = λ error. none;
  class = λ error. "";
  api_event = λ error. none;
  parse_code = λ event. none;
}

abbrev silent : Phases ℕ String ℕ ℕ
silent = record {
  prepared = ok ("jobs" ∷ "workspace" ∷ []);
  agent_setup = ok tt;
  prompted = ok tt;
  events = 1 ∷ 2 ∷ [];
  stream_end = timed_out;
  turn = λ event. ok "done";
  verified = ok (record {
    result = record { rewards = ("reward", 1) ∷ []; exit_code = some 0 };
    stdout = "";
    stderr = "";
  });
}

-- the numbers of the events sent, and whether the attempt returned a result
abbrev summary : Emitting (AttemptEmitter ℕ String ℕ) (EvalResult String ℕ) ℕ → List ℕ × Bool
summary (emitter, ok result) = (map (λ event. event.sequence) emitter.sent, true)
summary (emitter, err error) = (map (λ event. event.sequence) emitter.sent, false)

attempts_run :
    (summary (run_task no_details a_x "x__1" false (λ event. event == 2) (λ r. ltb 0 r) silent)
      ≡ (1 ∷ 2 ∷ 3 ∷ 4 ∷ 5 ∷ 6 ∷ 7 ∷ [], true))
    × (summary (run_task no_details a_x "x__1" false (λ event. event == 3) (λ r. ltb 0 r) silent)
        ≡ (1 ∷ 2 ∷ 3 ∷ 4 ∷ [], false))
unfolding run_task emit
attempts_run = (refl, refl)

run_task-IsAttemptLog_example :
    IsAttemptLog no_details
      (run_task no_details a_x "x__1" false (λ event. event == 3) (λ r. ltb 0 r) silent)
run_task-IsAttemptLog_example =
    run_task-IsAttemptLog no_details a_x "x__1" false (λ event. event == 3) (λ r. ltb 0 r) silent
