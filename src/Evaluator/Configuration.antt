-- ===== src/Evaluator/Configuration.antt =====
-- `NanoevalBuilder` of crates/nanoeval/src/evaluator.rs. The agent's builder `B` and the attempt's
-- factory `F` are of other packages; the event channel is left out.
pub mod Laws
use nanoeval.Errors.{invalid_concurrency, EvalError, invalid_memory}
use nanoeval.Admission.{AdmissionController}
use nanoeval.Sweep.{manifest, Sweep, RunManifest, manifest_attempt_count}
use nanoeval.Prelude.Paths.{join, FilePath}
use nanoeval.Prelude.{
  ℕ, Bool, List, Option, Result, [], err, false, if◌then◌else◌, none, ok, some, ◌==◌, ◌>>=◌, ◌∷◌,
}
use nanoeval.Job.Resume.{create, EvalJob, Fresh, JobDirectory, resume_or_create}
use nanoeval.Job.Binding.{bind_run, Disk, ManifestJson}

pub data FiniteRunMode : Type 0 where
  fresh resume : FiniteRunMode

pub record FiniteRun : Type 0 where
  pub manifest : RunManifest
  pub mode : FiniteRunMode

pub record NanoevalBuilder (B F : Type 0) : Type 0 where
  pub nanocodex : B
  pub output_directory : FilePath
  pub max_concurrency : ℕ
  pub max_memory_mb : Option ℕ
  pub attempt_agent : Option F
  pub finite_run : Option FiniteRun

pub record Nanoeval (B F : Type 0) : Type 0 where
  pub nanocodex : B
  pub job : EvalJob
  pub planned_attempts : Option ℕ
  pub admission : AdmissionController
  pub max_concurrency : ℕ
  pub max_memory_mb : Option ℕ
  pub next_prompt_cache_attempt : ℕ
  pub attempt_agent : Option F

-- What `build` finds in the output directory: the job directories, what a new job takes from
-- outside, and the `run.json` of the job that it opens.
pub record World (Bytes : Type 0) : Type 0 where
  pub directories : List JobDirectory
  pub new_job : Fresh
  pub disk : Disk Bytes
  pub run_file : FilePath → Option Bytes

module _ {B F : Type 0} where
  -- `Nanoeval::builder`
  unfoldable pub new_builder : (B → B) → B → NanoevalBuilder B F
  new_builder shared_prompt_cache nanocodex = record {
    nanocodex = shared_prompt_cache nanocodex;
    output_directory = "nanoeval-runs" ∷ [];
    max_concurrency = 1;
    max_memory_mb = none;
    attempt_agent = none;
    finite_run = none;
  }

  unfoldable pub resume_incomplete :
      {C : Type 0} → Sweep C → NanoevalBuilder B F → NanoevalBuilder B F
  resume_incomplete s b = record b {
    finite_run = some (record { manifest = manifest s; mode = resume });
  }

  unfoldable pub fresh_run : {C : Type 0} → Sweep C → NanoevalBuilder B F → NanoevalBuilder B F
  fresh_run s b = record b { finite_run = some (record { manifest = manifest s; mode = fresh }) }

  unfoldable pub with_max_concurrency : ℕ → NanoevalBuilder B F → NanoevalBuilder B F
  with_max_concurrency max_concurrency b = record b { max_concurrency = max_concurrency }

  unfoldable pub with_max_memory_mb : ℕ → NanoevalBuilder B F → NanoevalBuilder B F
  with_max_memory_mb max_memory_mb b = record b { max_memory_mb = some max_memory_mb }

-- `self.max_memory_mb == Some(0)`
is_zero_memory : Option ℕ → Bool
is_zero_memory none = false
is_zero_memory (some limit) = limit == 0

module _ (N : Type 0) (j : ManifestJson) where
  open j use {Bytes, newline, encode, decode, round_trip}

  -- `run.json` of a job
  abbrev pub run_path : EvalJob → FilePath
  run_path job = join job.directory ("run.json" ∷ [])

  pub open_mode : World Bytes → RunManifest → FiniteRunMode → Result EvalJob (EvalError N)
  open_mode world run fresh = create N world.new_job
  open_mode world run resume = resume_or_create N world.directories run world.new_job

  -- the job, and what its `run.json` holds afterwards
  pub open_job : World Bytes → Option FiniteRun → Result (EvalJob × Option Bytes) (EvalError N)
  unfolding open_mode bind_run
  open_job world none = do job ← create N world.new_job; ok (job, world.run_file (run_path job))
  open_job world (some run) = do
    job ← open_mode world run.manifest run.mode
    let bound =
          bind_run N j (run_path job) world.disk run.manifest (world.run_file (run_path job)) in
        do _ ← bound.1; ok (job, bound.0)

  abbrev planned : Option FiniteRun → Option ℕ
  planned none = none
  planned (some run) = some (manifest_attempt_count run.manifest)

  module _ {B F : Type 0} where
    abbrev pub assemble : NanoevalBuilder B F → EvalJob × Option Bytes → Nanoeval B F × Option Bytes
    assemble b opened = (
      record {
        nanocodex = b.nanocodex;
        job = opened.0;
        planned_attempts = planned b.finite_run;
        admission = record { max_concurrency = b.max_concurrency; max_memory_mb = b.max_memory_mb };
        max_concurrency = b.max_concurrency;
        max_memory_mb = b.max_memory_mb;
        next_prompt_cache_attempt = 0;
        attempt_agent = b.attempt_agent;
      },
      opened.1,
    )

    -- `NanoevalBuilder::build`
    unfoldable pub build_evaluator :
        World Bytes → NanoevalBuilder B F → Result (Nanoeval B F × Option Bytes) (EvalError N)
    unfolding open_job is_zero_memory
    build_evaluator world b =
        if b.max_concurrency == 0
        then err invalid_concurrency
        else if is_zero_memory b.max_memory_mb
        then err invalid_memory
        else do opened ← open_job world b.finite_run; ok (assemble b opened)
