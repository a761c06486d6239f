-- ===== src/Evaluator/Sweeping/Accounts.antt =====
-- Which attempts `sweep` and `remaining_attempts` of crates/nanoeval/src/evaluator.rs take up.
use nanoeval.Evaluator.Ordering.{succeeded, run_tasks-eq-ok}
use nanoeval.Errors.{EvalError}
use nanoeval.Sweep.Prefix.{trial_prefix}
use nanoeval.Sweep.{Sweep, SweepAttempt, attempts, manifest}
use nanoeval.Prelude.Paths.{FilePath}
use nanoeval.Job.{Listing, completed_attempt}
use nanoeval.Job.Binding.{ManifestJson, Disk, bind_run}
use nanoeval.Evaluator.Sweeping.{
  coordinates, AttemptOutput, AttemptInput, SweepAttemptResult, collect, count_remaining, input_of,
  remaining_attempts, sweep,
}
use mathlib.Core.List.{append_assoc, append-nil, Permᴰ}
use nanoeval.Prelude.{
  ℕ, All, Bool, Bool-cases, List, Option, Result, [], arith, filter, if◌then◌else◌, inl, inr,
  length, map, not, ok, refl, ◌++◌, ◌+◌, ◌∙◌, ◌∷◌, ◌≡◌, ap,
}

-- What an attempt returns: the result of its run, and the coordinate that it was given.
abbrev pub output_of : {B R : Type 0} → (AttemptInput B → R) → AttemptInput B → AttemptOutput R
output_of run input = record { result = run input; coordinate = input.coordinate }

abbrev pub report_of : {B R : Type 0} → (AttemptInput B → R) → SweepAttempt B → SweepAttemptResult R
report_of run attempt = record {
  agent = attempt.agent.id;
  trial = attempt.trial;
  result = run (input_of attempt);
}

module _ {B : Type 0} (listing : Listing) (done : SweepAttempt B → Bool) where
  -- `done` tells which attempts have a result in the job directory.
  abbrev pub Answers : List (SweepAttempt B) → Type 0
  Answers planned =
      All (λ attempt. completed_attempt (trial_prefix attempt) listing ≡ ok (done attempt)) planned

  abbrev pub open_attempts : List (SweepAttempt B) → List (SweepAttempt B)
  open_attempts planned = filter (λ attempt. not (done attempt)) planned

  collect_step :
      (skipped : ℕ) (inputs : List (AttemptInput B)) (attempt : SweepAttempt B)
      (planned : List (SweepAttempt B))
      → completed_attempt (trial_prefix attempt) listing ≡ ok (done attempt)
      → collect listing skipped inputs (attempt ∷ planned)
        ≡ collect listing
            (if done attempt then skipped + 1 else skipped)
            (if done attempt then inputs else inputs ++ input_of attempt ∷ [])
            planned
  unfolding collect
  collect_step skipped inputs attempt planned e = rw e refl

  collect_lem :
      (skipped : ℕ) (inputs : List (AttemptInput B)) (planned : List (SweepAttempt B))
      → Answers planned
      → collect listing skipped inputs planned
        ≡ ok
            (skipped + length (filter done planned), inputs ++ map input_of (open_attempts planned))
  unfolding collect
  collect_lem skipped inputs [] h = rw append-nil (ground arith)
  collect_lem skipped inputs (attempt ∷ planned) h =
      collect_step skipped inputs attempt planned h.0 ∙ (elim (Bool-cases (done attempt)) [
        | inl finished ↦ rw finished (collect_lem (skipped + 1) inputs planned h.1 ∙ ground arith)
        | inr unfinished ↦
            rw unfinished (
              collect_lem skipped (inputs ++ input_of attempt ∷ []) planned h.1 ∙ simp append_assoc)
      ])

  count_remaining_step :
      (remaining : ℕ) (attempt : SweepAttempt B) (planned : List (SweepAttempt B))
      → completed_attempt (trial_prefix attempt) listing ≡ ok (done attempt)
      → count_remaining listing remaining (attempt ∷ planned)
        ≡ count_remaining listing (if done attempt then remaining else remaining + 1) planned
  unfolding count_remaining
  count_remaining_step remaining attempt planned e = rw e refl

  count_remaining_lem :
      (remaining : ℕ) (planned : List (SweepAttempt B))
      → Answers planned
      → count_remaining listing remaining planned ≡ ok (remaining + length (open_attempts planned))
  unfolding count_remaining
  count_remaining_lem remaining [] h = ground arith
  count_remaining_lem remaining (attempt ∷ planned) h =
      count_remaining_step remaining attempt planned (h.0) ∙ (elim (Bool-cases (done attempt)) [
        | inl finished ↦ rw finished (count_remaining_lem remaining planned h.1)
        | inr unfinished ↦
            rw unfinished (count_remaining_lem (remaining + 1) planned h.1 ∙ ground arith)
      ])

module _ {B R : Type 0} (N : Type 0) (run : AttemptInput B → R) where
  coordinates_lem :
      (planned : List (SweepAttempt B))
      → coordinates {N = N} (map (output_of run) (map input_of planned))
        ≡ ok (map (report_of run) planned)
  unfolding coordinates
  coordinates_lem [] = refl
  coordinates_lem (attempt ∷ planned) = rw (coordinates_lem planned) refl

module _ {B : Type 0} (N : Type 0) (j : ManifestJson) (path : FilePath) where
  open j use {Bytes, newline, encode, decode, round_trip}

  module _ (disk : Disk Bytes) (file : Option Bytes) (listing : Listing) (s : Sweep B)
      (done : SweepAttempt B → Bool) where
    -- When the job is bound to the sweep, `remaining_attempts` is the number of the sweep's
    -- attempts that have no result in the job directory.
    pub remaining_attempts-eq-ok :
        (bind_run N j path disk (manifest s) file).1 ≡ ok tt
        → Answers listing done (attempts s)
        → (remaining_attempts N j path disk file listing s).1
          ≡ ok (length (open_attempts listing done (attempts s)))
    unfolding remaining_attempts
    remaining_attempts-eq-ok bound answers =
        rw bound
          (rw (count_remaining_lem listing done 0 (attempts s) answers) (ap ok (omega arith)))

    -- When the job is bound to the sweep and every attempt that is run succeeds, in whatever order
    -- the attempts finish, `sweep` reports the results of exactly the attempts that had none, in
    -- the order of the expansion, each with its agent and trial, and it counts the others as
    -- skipped.
    pub sweep-eq-ok :
        {R : Type 0}
        (stream : List (AttemptInput B) → List (ℕ × Result (AttemptOutput R) (EvalError N)))
        (run : AttemptInput B → R)
        → (bind_run N j path disk (manifest s) file).1 ≡ ok tt
        → Answers listing done (attempts s)
        → ((inputs : List (AttemptInput B))
            → Permᴰ (succeeded 0 (map (output_of run) inputs)) (stream inputs))
        → (sweep N j stream path disk file listing s).1
          ≡ ok (record {
            attempts = map (report_of run) (open_attempts listing done (attempts s));
            skipped = length (filter done (attempts s));
          })
    unfolding sweep
    sweep-eq-ok {R} stream run bound answers finishes =
        let inputs = map input_of (open_attempts listing done (attempts s)) in
        rw bound (
          rw (collect_lem listing done 0 [] (attempts s) answers) (
            rw (run_tasks-eq-ok (map (output_of run) inputs) (stream inputs) (finishes inputs)) (
              rw (coordinates_lem N run (open_attempts listing done (attempts s))) (ground arith))))
