-- ===== src/Evaluator/Configuration/Laws.antt =====
-- What an evaluator that `build` returns is, and which builders it refuses.
use nanoeval.Admission.{try_acquire}
use nanoeval.Admission.Progress.{IsReady, IsU64, no_deadlock}
use nanoeval.Admission.Waiting.{System, Reach}
use nanoeval.Prelude.{
  ℕ, Option, Result-cases, arith, inl, inr, none, ok, refl, some, subst, ◌<◌, ◌≡◌, ◌≢◌, Bool-cases,
  false, ◌==◌, All, [], sym,
}
use nanoeval.Job.Binding.{bind_run, Holds, IsRun, ManifestJson}
use nanoeval.Job.Binding.Laws.{bind_run-Holds}
use nanoeval.Evaluator.Configuration.{
  build_evaluator, FiniteRun, Nanoeval, NanoevalBuilder, World, planned, run_path, open_job,
  open_mode, assemble, is_zero_memory,
}
use nanoeval.Sweep.{manifest_attempt_count}
use nanoeval.Job.Resume.{EvalJob}

module _ (N : Type 0) (j : ManifestJson) where
  open j use {Bytes, newline, encode, decode, round_trip}

  -- The finite run of a builder, if it has one, has a trial and valid agents.
  abbrev pub HasRun : Option FiniteRun → Type 0
  HasRun none = Unit
  HasRun (some run) = IsRun run.manifest

  -- The plan and the job's `run.json` are those of the finite run, if there is one.
  abbrev pub IsPlanned : Option FiniteRun → Option ℕ → Option Bytes → Type 0
  IsPlanned none planned file = planned ≡ none
  IsPlanned (some run) planned file =
      (planned ≡ some (manifest_attempt_count run.manifest)) × Holds N j run.manifest file

  module _ (world : World Bytes) where
    open_job-Holds :
        (run : FiniteRun) (opened : EvalJob × Option Bytes)
        → IsRun run.manifest
        → open_job N j world (some run) ≡ ok opened
        → Holds N j run.manifest (opened.1)
    unfolding open_job
    open_job-Holds run opened valid h =
        elim (Result-cases (open_mode N j world run.manifest run.mode)) [
          | inr (error, failed) ↦ absurd (ground arith)
          | inl (job, found) ↦
              elim (Result-cases (
                (bind_run N j (run_path N j job) world.disk run.manifest
                  (world.run_file (run_path N j job))).1)) [
                    | inr (error, failed) ↦ absurd (ground arith)
                    | inl (done, bound) ↦ subst (Holds N j run.manifest) (ground arith) (
                        bind_run-Holds N j (run_path N j job) world.disk run.manifest
                          (world.run_file (run_path N j job)) valid bound)
                  ]
        ]

    IsPlanned-open_job :
        (finite_run : Option FiniteRun) (opened : EvalJob × Option Bytes)
        → HasRun finite_run
        → open_job N j world finite_run ≡ ok opened
        → IsPlanned finite_run (planned N j finite_run) (opened.1)
    IsPlanned-open_job none opened valid h = refl
    IsPlanned-open_job (some run) opened valid h = (refl, open_job-Holds run opened valid h)

  module _ {B F : Type 0} (world : World Bytes) (b : NanoevalBuilder B F) where
    pub record IsBuilt (eval : Nanoeval B F) (file : Option Bytes) : Type 0 where
      pub slots : 0 < eval.admission.max_concurrency
      pub ceiling : eval.admission.max_memory_mb ≢ some 0
      pub same_concurrency : eval.max_concurrency ≡ eval.admission.max_concurrency
      pub same_memory : eval.max_memory_mb ≡ eval.admission.max_memory_mb
      pub memory_of : eval.admission.max_memory_mb ≡ b.max_memory_mb
      pub opened : open_job N j world b.finite_run ≡ ok (eval.job, file)
      pub plan : IsPlanned b.finite_run eval.planned_attempts file

    assemble-IsBuilt :
        (opened : EvalJob × Option Bytes)
        → HasRun b.finite_run
        → b.max_concurrency ≢ 0
        → is_zero_memory b.max_memory_mb ≡ false
        → open_job N j world b.finite_run ≡ ok opened
        → IsBuilt (assemble N j b opened).0 (assemble N j b opened).1
    unfolding is_zero_memory
    assemble-IsBuilt opened valid slots ceiling h = record {
      slots = omega arith;
      ceiling = λ e. ground arith;
      same_concurrency = refl;
      same_memory = refl;
      memory_of = refl;
      opened = h;
      plan = IsPlanned-open_job world b.finite_run opened valid h;
    }

    -- An evaluator that `build` returns has at least one slot and no ceiling of 0, its admission
    -- controller has its limits, and its job is the one that was opened; with a finite run, its
    -- plan counts the run's attempts and `run.json` of the job holds a manifest of that run.
    pub build_evaluator-IsBuilt :
        (eval : Nanoeval B F) (file : Option Bytes)
        → HasRun b.finite_run
        → build_evaluator N j world b ≡ ok (eval, file)
        → IsBuilt eval file
    unfolding build_evaluator
    build_evaluator-IsBuilt eval file valid h = elim (Bool-cases (b.max_concurrency == 0)) [
      | inl none_at_all ↦ absurd (ground arith)
      | inr slots ↦ elim (Bool-cases (is_zero_memory b.max_memory_mb)) [
        | inl no_memory ↦ absurd (ground arith)
        | inr ceiling ↦ elim (Result-cases (open_job N j world b.finite_run)) [
          | inr (error, failed) ↦ absurd (ground arith)
          | inl (opened, found) ↦
              let same : assemble N j b opened ≡ (eval, file) = ground arith in
              subst (λ p. IsBuilt (p.0) (p.1)) same
                (assemble-IsBuilt opened valid (ground arith) ceiling found)
        ]
      ]
    ]

    -- The attempts of an evaluator that `build` returns never all wait for each other: whatever
    -- its callers have done, when no attempt runs and no drop is still to notify, every caller
    -- that sleeps has been notified, and a round of any caller would succeed.
    pub build_evaluator-Reach :
        (eval : Nanoeval B F) (file : Option Bytes) {s : System}
        → HasRun b.finite_run
        → build_evaluator N j world b ≡ ok (eval, file)
        → IsU64 b.max_memory_mb
        → Reach eval.admission s
        → s.held ≡ []
        → s.pending ≡ 0
        → All (IsReady s.epoch) s.waiters
          × ((requested : ℕ) → try_acquire eval.admission requested s.state ≢ none)
    build_evaluator-Reach eval file valid h fits r empty quiet =
        let built = build_evaluator-IsBuilt eval file valid h in
        no_deadlock eval.admission built.slots (subst IsU64 (sym built.memory_of) fits) r empty
          quiet
