-- ===== src/Evaluator/Sweeping.antt =====
-- `sweep` and `remaining_attempts` of crates/nanoeval/src/evaluator.rs. One call reads the same
-- listing of the job directory for all of its attempts. How the attempts of a batch are run is a
-- parameter: the completions of their stream.
pub mod Accounts
mod Tests
use nanoeval.Evaluator.Batches.{run_tasks}
use nanoeval.Prelude.Paths.{FilePath}
use nanoeval.Task.{Task}
use nanoeval.Job.Binding.{bind_run, ManifestJson, Disk, lift_io}
use nanoeval.Sweep.{attempts, SweepAttempt, Sweep, manifest}
use nanoeval.Errors.{IoError, missing_sweep_coordinate, EvalError}
use nanoeval.Sweep.Identity.{AgentId}
use nanoeval.Job.{Listing, completed_attempt}
use nanoeval.Sweep.Prefix.{SweepCoordinate, trial_prefix}
use nanoeval.Prelude.{
  ℕ, List, Option, Result, [], err, if◌then◌else◌, none, ok, some, ◌++◌, ◌+◌, ◌>>=◌, ◌∷◌,
}

pub record AttemptInput (B : Type 0) : Type 0 where
  pub task : Task
  pub nanocodex : B
  pub coordinate : Option SweepCoordinate

pub record AttemptOutput (R : Type 0) : Type 0 where
  pub result : R
  pub coordinate : Option SweepCoordinate

pub record SweepAttemptResult (R : Type 0) : Type 0 where
  pub agent : AgentId
  pub trial : ℕ
  pub result : R

pub record SweepResults (R : Type 0) : Type 0 where
  pub attempts : List (SweepAttemptResult R)
  pub skipped : ℕ

abbrev pub input_of : {B : Type 0} → SweepAttempt B → AttemptInput B
input_of attempt = record {
  task = attempt.task;
  nanocodex = attempt.agent.nanocodex;
  coordinate = some (record { agent = attempt.agent.id; trial = attempt.trial });
}

module _ {B : Type 0} where
  -- the first loop of `sweep`
  unfoldable pub collect :
      Listing
      → ℕ
      → List (AttemptInput B)
      → List (SweepAttempt B)
      → Result (ℕ × List (AttemptInput B)) IoError
  collect listing skipped inputs [] = ok (skipped, inputs)
  collect listing skipped inputs (attempt ∷ attempts) = do
    done ← completed_attempt (trial_prefix attempt) listing
    collect listing (if done then skipped + 1 else skipped)
        (if done then inputs else inputs ++ input_of attempt ∷ []) attempts

  -- the loop of `remaining_attempts`
  unfoldable pub count_remaining : Listing → ℕ → List (SweepAttempt B) → Result ℕ IoError
  count_remaining listing remaining [] = ok remaining
  count_remaining listing remaining (attempt ∷ attempts) = do
    done ← completed_attempt (trial_prefix attempt) listing
    count_remaining listing (if done then remaining else remaining + 1) attempts

module _ {R N : Type 0} where
  with_coordinate : R → Option SweepCoordinate → Result (SweepAttemptResult R) (EvalError N)
  with_coordinate result none = err missing_sweep_coordinate
  with_coordinate result (some coordinate) =
      ok (record { agent = coordinate.agent; trial = coordinate.trial; result = result })

  -- the `map` over the outputs, collected
  unfoldable pub coordinates :
      List (AttemptOutput R) → Result (List (SweepAttemptResult R)) (EvalError N)
  unfolding with_coordinate
  coordinates [] = ok []
  coordinates (output ∷ outputs) = do
    attempt ← with_coordinate output.result output.coordinate
    attempts ← coordinates outputs
    ok (attempt ∷ attempts)

module _ (N : Type 0) (j : ManifestJson) {B : Type 0} where
  open j use {Bytes, newline, encode, decode, round_trip}

  -- The contents of `run.json` afterwards, and the result.
  unfoldable pub remaining_attempts :
      FilePath
      → Disk Bytes
      → Option Bytes
      → Listing
      → Sweep B
      → Option Bytes × Result ℕ (EvalError N)
  unfolding bind_run count_remaining
  remaining_attempts path disk file listing s =
      let bound = bind_run N j path disk (manifest s) file in
      (bound.0, (bound.1 >>= λ _. lift_io N j (count_remaining listing 0 (attempts s))))

  module _ {R : Type 0} where
    unfoldable pub sweep :
        (List (AttemptInput B) → List (ℕ × Result (AttemptOutput R) (EvalError N)))
        → FilePath
        → Disk Bytes
        → Option Bytes
        → Listing
        → Sweep B
        → Option Bytes × Result (SweepResults R) (EvalError N)
    unfolding bind_run collect coordinates run_tasks
    sweep stream path disk file listing s =
        let bound = bind_run N j path disk (manifest s) file in
        (
          bound.0,
          (do
            _ ← bound.1
            collected ← lift_io N j (collect listing 0 [] (attempts s))
            outputs ← run_tasks (stream (collected.1))
            results ← coordinates outputs
            ok (record { attempts = results; skipped = collected.0 })),
        )
