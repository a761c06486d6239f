-- ===== src/Evaluator/Attempt/Events.antt =====
-- The events of `run_task` of crates/nanoeval/src/evaluator.rs: their numbers, and the last one.
use nanoeval.Task.{Task}
use nanoeval.Prelude.{
  ℕ, All, All-append, Bool, Bool-cases, List, Result, Result-cases, [], ap, arith, inl, inr, map,
  suc, sym, zero, ◌++◌, ◌+◌, ◌∙◌, ◌∷◌, ◌≡◌, String, err, ok, refl, subst,
}
use nanoeval.Errors.{EvalError, AgentErrors, failure_kind}
use nanoeval.Sweep.{numbers}
use nanoeval.Evaluator.Attempt.{
  emit, AttemptEmitter, EvalEvent, EvalEventKind, Phases, StreamEnd, agent_event, completed,
  execute_agent, failed, receive, Emitting, EvalResult, VerifierExecution, attempt_started,
  conclude, eval_result, guarded, run_task_inner, then_with, verifier_completed, verifier_output,
  verifier_started, EvalFailure, new_emitter, report_failure, run_task,
}
use mathlib.Core.List.{map-append}

numbers_snoc :
    (first count : ℕ) → numbers first (suc count) ≡ numbers first count ++ (first + count) ∷ []
numbers_snoc first zero = ap (λ n. n ∷ []) (omega arith)
numbers_snoc first (suc count) =
    let e : suc first + count ≡ first + suc count = omega arith in
    ap (λ ns. first ∷ ns)
      (numbers_snoc (suc first) count ∙ ap (λ n. numbers (suc first) count ++ n ∷ []) e)

module _ {Ev A Reward : Type 0} where
  -- An event that does not end the attempt.
  abbrev pub IsOpen : EvalEvent Ev A Reward → Type 0
  IsOpen event = elim event.kind [ completed result ↦ ⊥ | failed failure ↦ ⊥ | _ ↦ Unit ]

  abbrev pub IsNumbered : AttemptEmitter Ev A Reward → Type 0
  IsNumbered emitter = map (λ event. event.sequence) emitter.sent ≡ numbers 1 emitter.sequence

  -- The attempt is still going on.
  pub record IsRunning (emitter : AttemptEmitter Ev A Reward) : Type 0 where
    pub numbered : IsNumbered emitter
    pub still_open : All IsOpen emitter.sent

  emit-IsNumbered :
      (kind : EvalEventKind Ev A Reward) (emitter : AttemptEmitter Ev A Reward)
      → IsNumbered emitter
      → IsNumbered (emit kind emitter)
  unfolding emit
  emit-IsNumbered kind emitter h =
      let e : emitter.sequence + 1 ≡ 1 + emitter.sequence = omega arith in
      let last : suc emitter.sequence ≡ emitter.sequence + 1 = omega arith in
      map-append (λ event. event.sequence) emitter.sent _
      ∙ ap (λ ns. ns ++ (emitter.sequence + 1) ∷ []) h
      ∙ ap (λ n. numbers 1 emitter.sequence ++ n ∷ []) e
      ∙ sym (numbers_snoc 1 emitter.sequence)
      ∙ ap (numbers 1) last

  emit-IsRunning :
      (kind : EvalEventKind Ev A Reward) (emitter : AttemptEmitter Ev A Reward)
      → IsOpen (record { sequence = emitter.sequence + 1; kind = kind })
      → IsRunning emitter
      → IsRunning (emit kind emitter)
  unfolding emit
  emit-IsRunning kind emitter o h = record {
    numbered = emit-IsNumbered kind emitter h.numbered;
    still_open = All-append IsOpen emitter.sent _ h.still_open (o, tt);
  }

  -- The last event of the log is of the kind, and nothing before it ends the attempt.
  pub record HasEnded (emitter : AttemptEmitter Ev A Reward) (kind : EvalEventKind Ev A Reward)
      : Type 0 where
    pub before : AttemptEmitter Ev A Reward
    pub running : IsRunning before
    pub emitted : emitter ≡ emit kind before

  conclude-HasEnded :
      (result : EvalResult A Reward) (execution : VerifierExecution Reward)
      (emitter : AttemptEmitter Ev A Reward)
      → IsRunning emitter
      → HasEnded (conclude result execution emitter) (completed result)
  unfolding conclude
  conclude-HasEnded result execution emitter h = record {
    before = _;
    running =
        emit-IsRunning (verifier_completed execution.result)
          (emit (verifier_output execution.stdout execution.stderr) emitter) tt
          (emit-IsRunning (verifier_output execution.stdout execution.stderr) emitter tt h);
    emitted = refl;
  }

module _ {Ev A Reward N : Type 0} where
  receive-IsRunning :
      (task : Task) (is_terminal : Ev → Bool) (turn : Ev → Result A (EvalError N))
      (stream_end : StreamEnd) (events : List Ev) (emitter : AttemptEmitter Ev A Reward)
      → IsRunning emitter
      → IsRunning (receive task is_terminal turn stream_end events emitter).0
  unfolding receive
  receive-IsRunning task is_terminal turn stream_end [] emitter h = h
  receive-IsRunning task is_terminal turn stream_end (event ∷ events) emitter h =
      let next = emit-IsRunning (agent_event event) emitter tt h in
      elim (Bool-cases (is_terminal event)) [
        | inl terminal ↦ rw terminal next
        | inr other ↦ rw other (
            receive-IsRunning task is_terminal turn stream_end events
              (emit (agent_event event) emitter) next)
      ]

  execute_agent-IsRunning :
      (task : Task) (is_terminal : Ev → Bool) (phases : Phases Ev A Reward N)
      (emitter : AttemptEmitter Ev A Reward)
      → IsRunning emitter
      → IsRunning (execute_agent task is_terminal phases emitter).0
  unfolding execute_agent
  execute_agent-IsRunning task is_terminal phases emitter h =
      elim (Result-cases phases.agent_setup) [
        | inr (error, failed_setup) ↦ rw failed_setup h
        | inl (done, set_up) ↦ elim (Result-cases phases.prompted) [
          | inr (error, failed_prompt) ↦ rw set_up (rw failed_prompt h)
          | inl (done', sent) ↦ rw set_up (
              rw sent (
                receive-IsRunning task is_terminal phases.turn phases.stream_end phases.events
                  emitter h))
        ]
      ]

  abbrev Inner : Emitting (AttemptEmitter Ev A Reward) (EvalResult A Reward) N → Type 0
  Inner (emitter, ok result) = HasEnded emitter (completed result)
  Inner (emitter, err error) = IsRunning emitter

  guarded-Inner :
      {B : Type 0} (emitter : AttemptEmitter Ev A Reward) (r : Result B (EvalError N))
      (next : B → Emitting (AttemptEmitter Ev A Reward) (EvalResult A Reward) N)
      → IsRunning emitter
      → ((b : B) → Inner (next b))
      → Inner (guarded emitter r next)
  guarded-Inner emitter (ok b) next h rest = rest b
  guarded-Inner emitter (err error) next h rest = h

  then_with-Inner :
      {B : Type 0} (p : Emitting (AttemptEmitter Ev A Reward) B N)
      (next : B
        → AttemptEmitter Ev A Reward
        → Emitting (AttemptEmitter Ev A Reward) (EvalResult A Reward) N)
      → IsRunning p.0
      → ((b : B) (emitter : AttemptEmitter Ev A Reward)
          → IsRunning emitter
          → Inner (next b emitter))
      → Inner (then_with p next)
  then_with-Inner (emitter, ok b) next h rest = rest b emitter h
  then_with-Inner (emitter, err error) next h rest = h

  run_task_inner-Inner :
      (task : Task) (trial_name : String) (custom_backend : Bool) (is_terminal : Ev → Bool)
      (positive : Reward → Bool) (phases : Phases Ev A Reward N)
      (emitter : AttemptEmitter Ev A Reward)
      → IsRunning emitter
      → Inner (run_task_inner task trial_name custom_backend is_terminal positive phases emitter)
  unfolding run_task_inner
  run_task_inner-Inner task trial_name custom_backend is_terminal positive phases emitter h =
      guarded-Inner emitter _ _ h (λ workspace.
        let opened = emit (attempt_started task.prompt workspace) emitter in
        then_with-Inner (execute_agent task is_terminal phases opened) _
          (execute_agent-IsRunning task is_terminal phases opened
            (emit-IsRunning (attempt_started task.prompt workspace) emitter tt h))
          (λ answer later going.
            let verifying = emit-IsRunning verifier_started later tt going in
            guarded-Inner (emit verifier_started later) phases.verified _ verifying (λ execution.
              conclude-HasEnded (eval_result task trial_name positive answer execution.result)
                execution (emit verifier_started later) verifying)))

module _ {Ev A Reward N : Type 0} (a : AgentErrors N) where
  -- The event that reports a result.
  abbrev pub Concludes :
      Result (EvalResult A Reward) (EvalError N) → EvalEventKind Ev A Reward → Type 0
  Concludes (ok result) kind = kind ≡ completed result
  Concludes (err error) kind =
      (f : EvalFailure) × (kind ≡ failed f) × (f.kind ≡ failure_kind a error)

  pub record IsAttemptLog (p : Emitting (AttemptEmitter Ev A Reward) (EvalResult A Reward) N)
      : Type 0 where
    pub kind : EvalEventKind Ev A Reward
    pub ended : HasEnded (p.0) kind
    pub concludes : Concludes (p.1) kind
    pub numbered : IsNumbered (p.0)

  HasEnded-IsNumbered :
      (emitter : AttemptEmitter Ev A Reward) (kind : EvalEventKind Ev A Reward)
      → HasEnded emitter kind
      → IsNumbered emitter
  HasEnded-IsNumbered emitter kind h =
      subst IsNumbered (sym h.emitted) (emit-IsNumbered kind h.before h.running.numbered)

  report_failure-IsAttemptLog :
      (task : Task) (trial_name : String)
      (p : Emitting (AttemptEmitter Ev A Reward) (EvalResult A Reward) N)
      → Inner p
      → IsAttemptLog (report_failure a task trial_name p)
  unfolding report_failure
  report_failure-IsAttemptLog task trial_name (emitter, ok result) h = record {
    kind = completed result;
    ended = h;
    concludes = refl;
    numbered = HasEnded-IsNumbered emitter (completed result) h;
  }
  report_failure-IsAttemptLog task trial_name (emitter, err error) h =
      let kind =
        failed (record {
          task_name = task.name;
          trial_name = trial_name;
          kind = failure_kind a error;
        }) in
      record {
        kind = kind;
        ended = record { before = emitter; running = h; emitted = refl };
        concludes = (_, refl, refl);
        numbered = emit-IsNumbered kind emitter h.numbered;
      }

  -- However the phases of an attempt turn out, its events are numbered from 1 without a gap, its
  -- last event, and no other, is one of completion or failure, and it reports what `run_task`
  -- returns: the result, or a failure with the class of the error.
  pub run_task-IsAttemptLog :
      (task : Task) (trial_name : String) (custom_backend : Bool) (is_terminal : Ev → Bool)
      (positive : Reward → Bool) (phases : Phases Ev A Reward N)
      → IsAttemptLog (run_task a task trial_name custom_backend is_terminal positive phases)
  unfolding run_task new_emitter
  run_task-IsAttemptLog task trial_name custom_backend is_terminal positive phases =
      report_failure-IsAttemptLog task trial_name _ (
        run_task_inner-Inner task trial_name custom_backend is_terminal positive phases new_emitter
          (record { numbered = refl; still_open = tt }))
