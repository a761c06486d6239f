-- ===== src/Job/Resume/Newest.antt =====
-- Which job `resume_or_create` of crates/nanoeval/src/job.rs reopens, and when it makes one.
use nanoeval.Errors.{IoError}
use nanoeval.Prelude.Keyed.{sort_by_key, last?, last?-eq-none, last?-sort_by_key}
use nanoeval.Sweep.{RunManifest}
use nanoeval.Job.Resume.{
  Fresh, EvalJob, JobIdentity, JobDirectory, Candidate, candidate, reopen, reopen_or_create,
  resume_or_create,
}
use nanoeval.Prelude.{
  ℕ, All, All-flat_map, List, flat_map, ok, some, true, ◌≡◌, ◌≤◌, Result, err, Option, [], arith,
  false, none, refl, subst,
}
use mathlib.Core.List.{Memᴰ}
use nanoeval.Job.Resume.Laws.{IsIncomplete, IsResumed, candidate-IsIncomplete, candidates-IsResumed}

-- No listed directory of the run that lacks results began later.
abbrev pub IsNewest : List JobDirectory → RunManifest → ℕ → Type 0
IsNewest directories run started_at =
    (d : JobDirectory) (identity : JobIdentity)
    → Memᴰ d directories
    → IsIncomplete run d identity
    → identity.started_at ≤ started_at

-- The job is that of a listed directory that lacks results, whose lock was free.
pub record IsReopened (directories : List JobDirectory) (run : RunManifest) (job : EvalJob)
    : Type 0 where
  pub directory : JobDirectory
  pub identity : JobIdentity
  pub listed : Memᴰ directory directories
  pub incomplete : IsIncomplete run directory identity
  pub free : directory.lease ≡ ok tt
  pub same_id : job.id ≡ identity.id
  pub same_start : job.started_at ≡ identity.started_at
  pub same_path : job.directory ≡ directory.path
  pub newest : IsNewest directories run job.started_at

module _ (N : Type 0) (run : RunManifest) (fresh : Fresh) where
  bounded :
      (directories : List JobDirectory) (c : Candidate)
      → All (λ y. y.0 ≤ c.0) (flat_map (candidate run) directories)
      → IsNewest directories run c.0
  bounded directories c h d identity listed incomplete =
      let found = candidate-IsIncomplete run d identity incomplete in
      (rw found at (All-flat_map (λ y. y.0 ≤ c.0) (candidate run) directories h listed)).0

  reopen-IsReopened :
      (directories : List JobDirectory) (c : Candidate) (job : EvalJob)
      (lease : Result (Unit {0}) IoError)
      → last? (sort_by_key (flat_map (candidate run) directories)) ≡ some c
      → c.1.1.lease ≡ lease
      → reopen N c.1.0 c.1.1 lease ≡ ok job
      → IsReopened directories run job
  unfolding reopen
  reopen-IsReopened directories c job (err error) e free h = absurd (cc)
  reopen-IsReopened directories c job (ok _) e free h =
      let (resumed, newest) =
        last?-sort_by_key (IsResumed run directories) (flat_map (candidate run) directories) c
          (candidates-IsResumed run directories) e in
      record {
        directory = c.1.1;
        identity = c.1.0;
        listed = resumed.listed;
        incomplete = resumed.incomplete;
        free = free;
        same_id = cc;
        same_start = cc;
        same_path = cc;
        newest =
            subst (IsNewest directories run) (cc resumed.started) (bounded directories c newest);
      }

  reopen_or_create-IsReopened :
      (directories : List JobDirectory) (job : EvalJob) (newest : Option Candidate)
      → last? (sort_by_key (flat_map (candidate run) directories)) ≡ newest
      → reopen_or_create N fresh newest ≡ ok job
      → job.resumed ≡ true
      → IsReopened directories run job
  unfolding reopen_or_create
  reopen_or_create-IsReopened directories job none e h r = absurd (ground arith)
  reopen_or_create-IsReopened directories job (some c) e h r =
      reopen-IsReopened directories c job c.1.1.lease e refl h

  -- When `resume_or_create` returns a job marked as resumed, this is the job of a listed directory
  -- with a manifest that is the same run and with fewer results than attempts, whose lock was
  -- free, and no such directory began later.
  pub resume_or_create-IsReopened :
      (directories : List JobDirectory) (job : EvalJob)
      → resume_or_create N directories run fresh ≡ ok job
      → job.resumed ≡ true
      → IsReopened directories run job
  unfolding resume_or_create
  resume_or_create-IsReopened directories job h r =
      reopen_or_create-IsReopened directories job
        (last? (sort_by_key (flat_map (candidate run) directories))) refl h r

  nothing-IsIncomplete :
      (directories : List JobDirectory)
      → flat_map (candidate run) directories ≡ []
      → (d : JobDirectory) (identity : JobIdentity) → Memᴰ d directories
      → ¬ IsIncomplete run d identity
  nothing-IsIncomplete directories e d identity listed incomplete =
      let found = candidate-IsIncomplete run d identity incomplete in
      let all_false : All (λ (c : Candidate). ⊥) (flat_map (candidate run) directories) = rw e tt in
      (rw found at
        (All-flat_map (λ (c : Candidate). ⊥) (candidate run) directories all_false listed)).0

  created_or_reopened :
      (directories : List JobDirectory) (job : EvalJob) (newest : Option Candidate)
      → last? (sort_by_key (flat_map (candidate run) directories)) ≡ newest
      → reopen_or_create N fresh newest ≡ ok job
      → job.resumed ≡ false
      → ((d : JobDirectory) (identity : JobIdentity)
          → Memᴰ d directories
          → ¬ IsIncomplete run d identity)
        × (job.id ≡ fresh.id)
        × (job.directory ≡ fresh.path)
  unfolding reopen_or_create
  created_or_reopened directories job none e h r = (
    nothing-IsIncomplete directories (last?-eq-none (flat_map (candidate run) directories) e),
    ground arith,
    ground arith,
  )
  created_or_reopened directories job (some c) e h r = absurd (ground arith)

  -- When `resume_or_create` returns a job that is not marked as resumed, no listed directory of
  -- the run lacks results, and the job has the fresh identifier and directory.
  pub resume_or_create_fresh :
      (directories : List JobDirectory) (job : EvalJob)
      → resume_or_create N directories run fresh ≡ ok job
      → job.resumed ≡ false
      → ((d : JobDirectory) (identity : JobIdentity)
          → Memᴰ d directories
          → ¬ IsIncomplete run d identity)
        × (job.id ≡ fresh.id)
        × (job.directory ≡ fresh.path)
  unfolding resume_or_create
  resume_or_create_fresh directories job h r =
      created_or_reopened directories job
        (last? (sort_by_key (flat_map (candidate run) directories))) refl h r
