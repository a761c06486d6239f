-- ===== src/Evaluator/Attempt.antt =====
-- The run of one attempt, of crates/nanoeval/src/evaluator.rs: its phases and the events that it
-- emits. What a phase does outside is its outcome here; telemetry, times and paths are left out.
pub mod Events
mod Tests
use nanoeval.Task.{Task}
use nanoeval.Prelude.{
  ℕ, Bool, List, Option, Result, String, [], all, err, if◌then◌else◌, not, ok, ◌&&◌, ◌++◌, ◌+◌,
  ◌>>◌, ◌∷◌,
}
use nanoeval.Errors.{
  failure_kind, EvalFailureKind, AgentErrors, EvalError, agent_events_closed, agent_timeout,
  unsupported_native_task,
}
use nanoeval.Prelude.Paths.{FilePath}

pub data EvalStatus : Type 0 where
  passed failed_status : EvalStatus

-- A reward is a number of the machine's `f64`, of which the code asks whether it is above 0.
pub record VerifierResult (Reward : Type 0) : Type 0 where
  pub rewards : List (String × Reward)
  pub exit_code : Option ℕ

pub record VerifierExecution (Reward : Type 0) : Type 0 where
  pub result : VerifierResult Reward
  pub stdout : String
  pub stderr : String

pub record EvalResult (A Reward : Type 0) : Type 0 where
  pub task_name : String
  pub trial_name : String
  pub status : EvalStatus
  pub agent : A
  pub verifier : VerifierResult Reward

pub record EvalFailure : Type 0 where
  pub task_name : String
  pub trial_name : String
  pub kind : EvalFailureKind

pub data EvalEventKind (Ev A Reward : Type 0) : Type 0 where
  attempt_started : String → FilePath → EvalEventKind Ev A Reward
  agent_event : Ev → EvalEventKind Ev A Reward
  verifier_started : EvalEventKind Ev A Reward
  verifier_output : String → String → EvalEventKind Ev A Reward
  verifier_completed : VerifierResult Reward → EvalEventKind Ev A Reward
  completed : EvalResult A Reward → EvalEventKind Ev A Reward
  failed : EvalFailure → EvalEventKind Ev A Reward

pub record EvalEvent (Ev A Reward : Type 0) : Type 0 where
  pub sequence : ℕ
  pub kind : EvalEventKind Ev A Reward

-- The emitter, with the events that it has sent.
pub record AttemptEmitter (Ev A Reward : Type 0) : Type 0 where
  pub sequence : ℕ
  pub sent : List (EvalEvent Ev A Reward)

-- How a stream of agent events without a terminal event ends.
pub data StreamEnd : Type 0 where
  closed timed_out : StreamEnd

-- The outcomes of the phases: the workspace, the agent's setup and prompt, the events of the agent
-- that arrive in time, the result of the turn behind its terminal event, and the verifier.
pub record Phases (Ev A Reward N : Type 0) : Type 0 where
  pub prepared : Result FilePath (EvalError N)
  pub agent_setup : Result (Unit {0}) (EvalError N)
  pub prompted : Result (Unit {0}) (EvalError N)
  pub events : List Ev
  pub stream_end : StreamEnd
  pub turn : Ev → Result A (EvalError N)
  pub verified : Result (VerifierExecution Reward) (EvalError N)

unfoldable pub validate_attempt_environment :
    {N : Type 0} → Task → Bool → Result (Unit {0}) (EvalError N)
validate_attempt_environment task custom_backend =
    if task.requires_compose && not custom_backend
    then err (
        unsupported_native_task task.name
          "custom Docker Compose environments are not available in native mode")
    else ok tt

unfoldable pub verifier_status :
    {Reward : Type 0} → (Reward → Bool) → VerifierResult Reward → EvalStatus
verifier_status positive verifier =
    if all (λ reward. positive (reward.1)) verifier.rewards then passed else failed_status

-- An operation that emits and may fail: the emitter afterwards, and the result.
abbrev pub Emitting : Type 0 → Type 0 → Type 0 → Type 0
Emitting S R N = S × Result R (EvalError N)

-- `?` behind an operation that does not emit
abbrev pub guarded :
    {S B C N : Type 0} → S → Result B (EvalError N) → (B → Emitting S C N) → Emitting S C N
guarded emitter (err error) next = (emitter, err error)
guarded emitter (ok b) next = next b

-- `?` behind one that emits
abbrev pub then_with :
    {S B C N : Type 0} → Emitting S B N → (B → S → Emitting S C N) → Emitting S C N
then_with (emitter, err error) next = (emitter, err error)
then_with (emitter, ok b) next = next b emitter

abbrev pub stream_error : {N : Type 0} → Task → StreamEnd → EvalError N
stream_error task closed = agent_events_closed
stream_error task timed_out = agent_timeout task.agent_timeout

module _ {A Reward : Type 0} where
  abbrev pub eval_result :
      Task → String → (Reward → Bool) → A → VerifierResult Reward → EvalResult A Reward
  eval_result task trial_name positive agent verifier = record {
    task_name = task.name;
    trial_name = trial_name;
    status = verifier_status positive verifier;
    agent = agent;
    verifier = verifier;
  }

module _ {Ev A Reward : Type 0} where
  unfoldable pub new_emitter : AttemptEmitter Ev A Reward
  new_emitter = record { sequence = 0; sent = [] }

  unfoldable pub emit :
      EvalEventKind Ev A Reward → AttemptEmitter Ev A Reward → AttemptEmitter Ev A Reward
  emit kind emitter = record {
    sequence = emitter.sequence + 1;
    sent = emitter.sent ++ record { sequence = emitter.sequence + 1; kind = kind } ∷ [];
  }

  -- the events of `run_task_inner` behind the verifier
  unfoldable pub conclude :
      EvalResult A Reward
      → VerifierExecution Reward
      → AttemptEmitter Ev A Reward
      → AttemptEmitter Ev A Reward
  unfolding emit
  conclude result verifier emitter = emit (completed result) (
      emit (verifier_completed verifier.result)
        (emit (verifier_output verifier.stdout verifier.stderr) emitter))

module _ {Ev A Reward N : Type 0} where
  -- the loop of `execute_agent`
  unfoldable pub receive :
      Task
      → (Ev → Bool)
      → (Ev → Result A (EvalError N))
      → StreamEnd
      → List Ev
      → AttemptEmitter Ev A Reward
      → Emitting (AttemptEmitter Ev A Reward) A N
  unfolding emit
  receive task is_terminal turn stream_end [] emitter =
      (emitter, err (stream_error task stream_end))
  receive task is_terminal turn stream_end (event ∷ events) emitter =
      let next = emit (agent_event event) emitter in
      let rest = receive task is_terminal turn stream_end events next in
      if is_terminal event then (next, turn event) else rest

  unfoldable pub execute_agent :
      Task
      → (Ev → Bool)
      → Phases Ev A Reward N
      → AttemptEmitter Ev A Reward
      → Emitting (AttemptEmitter Ev A Reward) A N
  unfolding receive
  execute_agent task is_terminal phases emitter = guarded emitter phases.agent_setup (λ _.
      guarded emitter phases.prompted
        (λ _. receive task is_terminal phases.turn phases.stream_end phases.events emitter))

  unfoldable pub run_task_inner :
      Task
      → String
      → Bool
      → (Ev → Bool)
      → (Reward → Bool)
      → Phases Ev A Reward N
      → AttemptEmitter Ev A Reward
      → Emitting (AttemptEmitter Ev A Reward) (EvalResult A Reward) N
  unfolding emit execute_agent conclude validate_attempt_environment
  run_task_inner task trial_name custom_backend is_terminal positive phases emitter =
      guarded emitter (validate_attempt_environment task custom_backend >> phases.prepared)
        (λ workspace.
          then_with
            (execute_agent task is_terminal phases
              (emit (attempt_started task.prompt workspace) emitter))
            (λ agent emitter.
              let started = emit verifier_started emitter in
              guarded started phases.verified (λ verifier.
                let result = eval_result task trial_name positive agent verifier.result in
                (conclude result verifier started, ok result))))

  module _ (a : AgentErrors N) where
    report_failure :
        Task
        → String
        → Emitting (AttemptEmitter Ev A Reward) (EvalResult A Reward) N
        → Emitting (AttemptEmitter Ev A Reward) (EvalResult A Reward) N
    unfolding emit failure_kind
    report_failure task trial_name (emitter, ok result) = (emitter, ok result)
    report_failure task trial_name (emitter, err error) = (
      emit
          (failed (record {
            task_name = task.name;
            trial_name = trial_name;
            kind = failure_kind a error;
          }))
          emitter,
      err error,
    )

    unfoldable pub run_task :
        Task
        → String
        → Bool
        → (Ev → Bool)
        → (Reward → Bool)
        → Phases Ev A Reward N
        → Emitting (AttemptEmitter Ev A Reward) (EvalResult A Reward) N
    unfolding run_task_inner report_failure new_emitter
    run_task task trial_name custom_backend is_terminal positive phases =
        report_failure task trial_name
          (run_task_inner task trial_name custom_backend is_terminal positive phases new_emitter)
