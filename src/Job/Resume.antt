-- ===== src/Job/Resume.antt =====
-- `create` and `resume_or_create` of crates/nanoeval/src/job.rs. Identifiers and times are
-- numbers; a fresh identifier and the present time come from outside. Of candidates with equal
-- times the source's unstable sort may put any last, this one the last listed.
-- The parent directory is there and can be read: the errors of `create_dir_all`, `canonicalize` and
-- `read_dir` on it are left out.
pub mod Laws
pub mod Newest
use nanoeval.Job.{Listing, completed_trial_count}
use nanoeval.Prelude.Paths.{FilePath}
use nanoeval.Prelude.Keyed.{last?, sort_by_key}
use nanoeval.Sweep.{manifest_eq, RunManifest, manifest_attempt_count}
use nanoeval.Errors.{io, IoErrorKind, IoError, EvalError, run_active, would_block}
use nanoeval.Prelude.{
  ℕ, Bool, List, Option, Result, [], err, false, flat_map, if◌then◌else◌, ltb, none, ok, some, true,
  ◌&&◌, ◌∷◌,
}

pub record JobIdentity : Type 0 where
  pub id : ℕ
  pub started_at : ℕ

pub record EvalJob : Type 0 where
  pub id : ℕ
  pub started_at : ℕ
  pub directory : FilePath
  pub resumed : Bool

-- One entry of the parent directory: what `is_dir` and the reads of `job.json` and `run.json`
-- give, the listing of the directory, and the outcome of `lease`.
pub record JobDirectory : Type 0 where
  pub path : FilePath
  pub is_dir : Bool
  pub identity : Option JobIdentity
  pub run : Option RunManifest
  pub listing : Listing
  pub lease : Result (Unit {0}) IoError

abbrev pub Candidate : Type 0
Candidate = ℕ × (JobIdentity × JobDirectory)

-- the last step of the `filter_map`
keep_incomplete :
    RunManifest → JobDirectory → JobIdentity → RunManifest → Result ℕ IoError → List Candidate
keep_incomplete run directory identity retained (err error) = []
keep_incomplete run directory identity retained (ok completed) =
    if manifest_eq retained run && ltb completed (manifest_attempt_count run)
    then (identity.started_at, (identity, directory)) ∷ []
    else []

read_candidate :
    RunManifest → JobDirectory → Option JobIdentity → Option RunManifest → List Candidate
unfolding keep_incomplete
read_candidate run directory none retained = []
read_candidate run directory (some identity) none = []
read_candidate run directory (some identity) (some retained) =
    keep_incomplete run directory identity retained (completed_trial_count directory.listing)

-- The candidates of `resume_or_create`, as a list of at most one for each entry.
unfoldable pub candidate : RunManifest → JobDirectory → List Candidate
unfolding read_candidate
candidate run directory =
    if directory.is_dir then read_candidate run directory directory.identity directory.run else []

-- What a new job takes from outside: its identifier, the time, and how its system calls end.
pub record Fresh : Type 0 where
  pub id : ℕ
  pub now : ℕ
  pub path : FilePath
  pub created : Result (Unit {0}) IoError

module _ (N : Type 0) where
  unfoldable pub create : Fresh → Result EvalJob (EvalError N)
  create fresh = elim fresh.created [
    | err error ↦ err (io error)
    | ok _ ↦
        ok (record {
          id = fresh.id;
          started_at = fresh.now;
          directory = fresh.path;
          resumed = false;
        })
  ]

  -- the `map_err` on `lease`
  lease_error : FilePath → IoErrorKind → IoError → EvalError N
  lease_error directory would_block error = run_active directory
  lease_error directory _ error = io error

  reopen : JobIdentity → JobDirectory → Result (Unit {0}) IoError → Result EvalJob (EvalError N)
  unfolding lease_error
  reopen identity directory (err error) = err (lease_error directory.path error.kind error)
  reopen identity directory (ok _) = ok (record {
    id = identity.id;
    started_at = identity.started_at;
    directory = directory.path;
    resumed = true;
  })

  reopen_or_create : Fresh → Option Candidate → Result EvalJob (EvalError N)
  unfolding create reopen
  reopen_or_create fresh none = create fresh
  reopen_or_create fresh (some (started_at, (identity, directory))) =
      reopen identity directory directory.lease

  unfoldable pub resume_or_create :
      List JobDirectory → RunManifest → Fresh → Result EvalJob (EvalError N)
  unfolding reopen_or_create candidate sort_by_key
  resume_or_create directories run fresh =
      reopen_or_create fresh (last? (sort_by_key (flat_map (candidate run) directories)))
