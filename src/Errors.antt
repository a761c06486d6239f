-- ===== src/Errors.antt =====
-- `EvalError` of crates/nanoeval/src/evaluator.rs, and how a failed attempt is classified. The
-- error of the agent runtime (`NanocodexError`) is a type of another package; an `AttemptError` is
-- its message with those of its sources.
use nanoeval.Prelude.Paths.{FilePath}
use nanoeval.Prelude.{ℕ, Bool, List, Option, String, code, false, if◌then◌else◌, none, some, str_eq}

pub data IoErrorKind : Type 0 where
  not_found already_exists would_block other_kind : IoErrorKind

pub record IoError : Type 0 where
  pub kind : IoErrorKind
  pub message : String

-- `dyn Error`: what `to_string` gives, and the messages along `source()`
pub record ErrorChain : Type 0 where
  pub message : String
  pub sources : List String

pub data EvalError (N : Type 0) : Type 0 where
  invalid_concurrency invalid_memory agent_events_closed missing_sweep_coordinate : EvalError N
  unsupported_native_task : String → String → EvalError N
  io : IoError → EvalError N
  unsupported_environment_entry : FilePath → EvalError N
  nanocodex : N → EvalError N
  attempt_agent attempt_verifier : ErrorChain → EvalError N
  agent_timeout verifier_timeout : ℕ → EvalError N
  json parse_reward : String → EvalError N
  run_conflict run_active : FilePath → EvalError N

pub data EvalFailureKind : Type 0 where
  agent_safety_refusal agent_authentication agent_timed_out verifier_timed_out : EvalFailureKind
  agent verifier environment internal : EvalFailureKind

-- What the classification asks of the agent runtime's errors: the `Responses` error inside, if
-- there is one, its class, the text of its `Api` event, and the error code that this text holds.
pub record AgentErrors (N : Type 0) : Type 1 where
  pub ResponsesError : Type 0
  pub responses_error : N → Option ResponsesError
  pub class : ResponsesError → String
  pub api_event : ResponsesError → Option String
  pub parse_code : String → Option (Option String)

-- `Option::and_then`
abbrev pub and_then : {A B : Type 0} → Option A → (A → Option B) → Option B
and_then none f = none
and_then (some a) f = f a

-- `Option::is_some_and`
abbrev pub is_some_and : {A : Type 0} → Option A → (A → Bool) → Bool
is_some_and none p = false
is_some_and (some a) p = p a

abbrev join_code : Option (Option String) → Option String
join_code none = none
join_code (some code) = code

module _ {N : Type 0} (a : AgentErrors N) where
  open a use {responses_error, class, api_event, parse_code}

  unfoldable pub is_safety_refusal : N → Bool
  is_safety_refusal error =
      is_some_and
        (and_then (and_then (responses_error error) api_event)
          (λ event. join_code (parse_code event)))
        (λ code. str_eq code "cyber_policy")

  unfoldable pub is_unauthorized : N → Bool
  is_unauthorized error =
      is_some_and (responses_error error) (λ e. str_eq (class e) "authorization")

  unfoldable pub failure_kind : EvalError N → EvalFailureKind
  unfolding is_safety_refusal is_unauthorized
  failure_kind (nanocodex error) =
      if is_safety_refusal error
      then agent_safety_refusal
      else if is_unauthorized error
      then agent_authentication
      else agent
  failure_kind (agent_timeout _) = agent_timed_out
  failure_kind (verifier_timeout _) = verifier_timed_out
  failure_kind agent_events_closed = agent
  failure_kind (attempt_verifier _) = verifier
  failure_kind (parse_reward _) = verifier
  failure_kind (unsupported_native_task _ _) = environment
  failure_kind (unsupported_environment_entry _) = environment
  failure_kind (attempt_agent _) = environment
  failure_kind invalid_concurrency = internal
  failure_kind invalid_memory = internal
  failure_kind (io _) = internal
  failure_kind (json _) = internal
  failure_kind (run_conflict _) = internal
  failure_kind (run_active _) = internal
  failure_kind missing_sweep_coordinate = internal

-- `EvalFailureKind::harbor_exception_type`
unfoldable pub harbor_exception_type : EvalFailureKind → String
harbor_exception_type agent_safety_refusal = "AgentSafetyRefusalError"
harbor_exception_type agent_authentication = "AgentAuthenticationError"
harbor_exception_type agent_timed_out = "AgentTimeoutError"
harbor_exception_type verifier_timed_out = "VerifierTimeoutError"
harbor_exception_type agent = "AgentError"
harbor_exception_type verifier = "VerifierError"
harbor_exception_type environment = "EnvironmentError"
harbor_exception_type internal = "NanoevalError"
