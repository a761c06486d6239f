-- ===== src/Atif/Steps.antt =====
-- The steps of a trajectory of crates/nanoeval/src/atif.rs: their numbers, and the results in them.
use nanoeval.Prelude.{
  ℕ, All, Bool-cases, List, Result, String, [], ap, arith, inl, inr, length, none, ok, refl, some,
  suc, true, ◌+◌, ◌∙◌, ◌∷◌, ◌≡◌, ◌≤◌, ◌⊎◌,
}
use nanoeval.Atif.{
  AtifTurn, AgentResult, AtifObservationResult, AtifSource, AtifStep, AtifTrajectory, agent_source,
  user_source,
}
use nanoeval.Atif.Turns.{Turns}
use nanoeval.Atif.Events.{apply_all, AgentEvent, AtifBuilder, empty_builder}
use nanoeval.Atif.Pairing.{IsPaired, apply_all-IsSound, has_call}
use nanoeval.Atif.Trajectory.{
  finish, as_u32, change_last, finish_failure, has_agent_step, into_failure_step, into_step,
  nonempty, number_steps, terminal, user_step,
}

-- The steps are numbered from here on.
abbrev pub AreNumbered : ℕ → List AtifStep → Type 0
AreNumbered n [] = Unit
AreNumbered n (step ∷ steps) = (step.step_id ≡ n) × AreNumbered (n + 1) steps

-- Each result of the step is the result of a call of the step.
abbrev pub IsPairedStep : AtifStep → Type 0
IsPairedStep step =
    All
      (λ (o : AtifObservationResult).
        has_call o.source_call_id (elim step.tool_calls [ none ↦ [] | some calls ↦ calls ]) ≡ true)
      (elim step.observation [ none ↦ [] | some results ↦ results ])

nonempty-or_none : {A : Type 0} (xs : List A) → elim (nonempty xs) [ none ↦ [] | some ys ↦ ys ] ≡ xs
nonempty-or_none [] = refl
nonempty-or_none (x ∷ xs) = refl

-- A step made of a turn has the turn's calls and results.
abbrev IsMade : (ℕ → AtifTurn → AtifStep) → Type 0
IsMade step =
    (n : ℕ) (turn : AtifTurn)
    → ((step n turn).step_id ≡ n)
      × ((step n turn).tool_calls ≡ nonempty turn.tool_calls)
      × ((step n turn).observation ≡ nonempty turn.observations)

module _ (step : ℕ → AtifTurn → AtifStep) (made : IsMade step) where
  made-IsPairedStep : (n : ℕ) (turn : AtifTurn) → IsPaired turn → IsPairedStep (step n turn)
  made-IsPairedStep n turn h =
      let (number, calls, results) = made n turn in
      rw calls (
        rw results
          (rw (nonempty-or_none turn.tool_calls) (rw (nonempty-or_none turn.observations) h)))

  number_steps-AreNumbered :
      (n : ℕ) (turns : Turns)
      → n + length turns ≤ 4294967295
      → AreNumbered n (number_steps step n turns)
  number_steps-AreNumbered n [] h = tt
  number_steps-AreNumbered n ((index, turn) ∷ later) h = (
    (made (as_u32 n) turn).0 ∙ (omega arith),
    number_steps-AreNumbered (n + 1) later (omega arith),
  )

  number_steps-IsPairedStep :
      (n : ℕ) (turns : Turns)
      → All (λ (e : ℕ × AtifTurn). IsPaired (e.1)) turns
      → All IsPairedStep (number_steps step n turns)
  number_steps-IsPairedStep n [] a = tt
  number_steps-IsPairedStep n ((index, turn) ∷ later) a =
      (made-IsPairedStep (as_u32 n) turn a.0, number_steps-IsPairedStep (n + 1) later a.1)

  length-number_steps : (n : ℕ) (turns : Turns) → length (number_steps step n turns) ≡ length turns
  length-number_steps n [] = refl
  length-number_steps n ((index, turn) ∷ later) = ap suc (length-number_steps (n + 1) later)

source_cases : (source : AtifSource) → (source ≡ agent_source) ⊎ (source ≡ user_source)
source_cases agent_source = inl refl
source_cases user_source = inr refl

-- Changing the last step keeps what the change keeps.
module _ (f : AtifStep → AtifStep) where
  change_last-All :
      (P : AtifStep → Type 0)
      → ((step : AtifStep) → P step → P (f step))
      → (steps : List AtifStep) → All P steps
      → All P (change_last f steps)
  change_last-All P keep [] a = tt
  change_last-All P keep (step ∷ later) a = elim (Bool-cases (has_agent_step later)) [
    | inl more ↦ rw more (a.0, change_last-All P keep later a.1)
    | inr last ↦ elim (source_cases step.source) [
      | inl agents ↦ rw last (rw agents (keep step a.0, a.1))
      | inr users ↦ rw last (rw users a)
    ]
  ]

  change_last-AreNumbered :
      ((step : AtifStep) → (f step).step_id ≡ step.step_id)
      → (n : ℕ) (steps : List AtifStep) → AreNumbered n steps
      → AreNumbered n (change_last f steps)
  change_last-AreNumbered keep n [] a = tt
  change_last-AreNumbered keep n (step ∷ later) a = elim (Bool-cases (has_agent_step later)) [
    | inl more ↦ rw more (a.0, change_last-AreNumbered keep (n + 1) later a.1)
    | inr last ↦ elim (source_cases step.source) [
      | inl agents ↦ rw last (rw agents (keep step ∙ a.0, a.1))
      | inr users ↦ rw last (rw users a)
    ]
  ]

  length-change_last : (steps : List AtifStep) → length (change_last f steps) ≡ length steps
  length-change_last [] = refl
  length-change_last (step ∷ later) = elim (Bool-cases (has_agent_step later)) [
    | inl more ↦ rw more (ap suc (length-change_last later))
    | inr last ↦ elim (source_cases step.source) [
      | inl agents ↦ rw last (rw agents refl)
      | inr users ↦ rw last (rw users refl)
    ]
  ]

-- What a finished trajectory is: its steps are numbered 1, 2, and so on, one more than there were
-- model calls, and each result stands in the step of its call.
pub record IsWellFormed {Cost : Type 0} (model_calls : ℕ) (trajectory : AtifTrajectory Cost)
    : Type 0 where
  pub numbered : AreNumbered 1 trajectory.steps
  pub paired : All IsPairedStep trajectory.steps
  pub total : trajectory.final_metrics.total_steps ≡ model_calls + 1

module _ {E Cost : Type 0} (from_string : String → Result String E) (default_model prompt : String)
    (result : AgentResult Cost) where
  -- The events of an attempt that are read give, when it succeeds and when it fails, a trajectory
  -- whose steps are numbered from 1, one for the prompt and one for each model call, and in which each
  -- result of a tool stands in the step of its call, if there are fewer model calls than a `u32` can
  -- number.
  pub finish-IsWellFormed :
      (events : List (AgentEvent E)) (builder : AtifBuilder)
      → apply_all from_string empty_builder events ≡ ok builder
      → length builder.turns ≤ 4294967290
      → IsWellFormed (length builder.turns) (finish builder prompt result)
        × IsWellFormed {Cost = Cost}
            (length builder.turns)
            (finish_failure default_model builder prompt)
  unfolding finish finish_failure
  finish-IsWellFormed events builder e h =
      let sound = apply_all-IsSound from_string events builder e in
      let made : IsMade (into_step result) = λ n turn. (refl, refl, refl) in
      let made_failure : IsMade into_failure_step = λ n turn. (refl, refl, refl) in
      let steps = user_step 1 prompt ∷ number_steps (into_step result) 2 builder.turns in
      (
        record {
          numbered =
              change_last-AreNumbered (terminal result) (λ step. refl) 1 steps
                (
                  refl,
                  number_steps-AreNumbered (into_step result) made 2 builder.turns (omega arith),
                );
          paired =
              change_last-All (terminal result) IsPairedStep (λ step p. p) steps
                (
                  tt,
                  number_steps-IsPairedStep (into_step result) made 2 builder.turns sound.paired,
                );
          total = omega (
            arith,
            h,
            length-change_last (terminal result) steps,
            length-number_steps (into_step result) made 2 builder.turns,
          );
        },
        record {
          numbered = (
            refl,
            number_steps-AreNumbered into_failure_step made_failure 2 builder.turns (omega arith),
          );
          paired = (
            tt,
            number_steps-IsPairedStep into_failure_step made_failure 2 builder.turns sound.paired,
          );
          total =
              omega (arith, h, length-number_steps into_failure_step made_failure 2 builder.turns);
        },
      )
