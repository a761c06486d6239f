-- ===== src/Job/Resume/Laws.antt =====
-- Which job `resume_or_create` of crates/nanoeval/src/job.rs returns.
use nanoeval.Errors.{IoError}
use nanoeval.Job.{completed_trial_count}
use nanoeval.Job.Resume.{
  JobDirectory, candidate, Candidate, JobIdentity, keep_incomplete, read_candidate,
}
use nanoeval.Sweep.{RunManifest, manifest_attempt_count, manifest_eq}
use nanoeval.Prelude.{
  ℕ, List, ok, some, true, ◌<◌, ◌≡◌, All, All-map, Bool-cases, Option, Result, [], arith, err,
  flat_map, inl, inr, ltb, none, refl, ◌&&◌, ◌∷◌, ◌⊎◌, Bool, if◌then◌else◌, subst, sym,
}
use mathlib.Core.List.{Memᴰ}

-- A directory of the run that still lacks results: it holds an identity, a manifest that is the
-- same run, and fewer results than the run has attempts.
pub record IsIncomplete (run : RunManifest) (directory : JobDirectory) (identity : JobIdentity)
    : Type 0 where
  pub is_dir : directory.is_dir ≡ true
  pub known : directory.identity ≡ some identity
  pub retained : RunManifest
  pub read : directory.run ≡ some retained
  pub same_run : manifest_eq retained run ≡ true
  pub completed : ℕ
  pub counted : completed_trial_count directory.listing ≡ ok completed
  pub below : completed < manifest_attempt_count run

abbrev pub candidate_of : JobIdentity → JobDirectory → Candidate
candidate_of identity directory = (identity.started_at, (identity, directory))

-- Such a directory gives its one candidate.
pub candidate-IsIncomplete :
    (run : RunManifest) (d : JobDirectory) (identity : JobIdentity)
    → IsIncomplete run d identity
    → candidate run d ≡ candidate_of identity d ∷ []
unfolding candidate
candidate-IsIncomplete run d identity h =
    ground (arith, h.is_dir, h.known, h.read, h.same_run, h.counted, h.below)

-- An entry of the parent directory gives a candidate only if it is such a directory.
keep_incomplete-cases :
    (run : RunManifest) (d : JobDirectory) (identity : JobIdentity) (retained : RunManifest)
    (counted : Result ℕ IoError)
    → d.is_dir ≡ true
    → d.identity ≡ some identity
    → d.run ≡ some retained
    → completed_trial_count d.listing ≡ counted
    → (keep_incomplete run d identity retained counted ≡ [])
      ⊎ ((keep_incomplete run d identity retained counted ≡ candidate_of identity d ∷ [])
          × IsIncomplete run d identity)
unfolding keep_incomplete
keep_incomplete-cases run d identity retained (err error) dir known read e = inl refl
keep_incomplete-cases run d identity retained (ok completed) dir known read e =
    elim (Bool-cases (manifest_eq retained run && ltb completed (manifest_attempt_count run))) [
      | inr unfit ↦ inl (rw unfit)
      | inl fit ↦ inr (
        rw fit,
        record {
          is_dir = dir;
          known = known;
          retained = retained;
          read = read;
          same_run = ground arith;
          completed = completed;
          counted = e;
          below = ground arith;
        },
      )
    ]

abbrev Gives : RunManifest → JobDirectory → List Candidate → Type 0
Gives run d found =
    (found ≡ [])
    ⊎ ((identity : JobIdentity) × (found ≡ candidate_of identity d ∷ [])
        × IsIncomplete run d identity)

read_candidate-cases :
    (run : RunManifest) (d : JobDirectory) (identity : Option JobIdentity)
    (retained : Option RunManifest)
    → d.is_dir ≡ true
    → d.identity ≡ identity
    → d.run ≡ retained
    → Gives run d (read_candidate run d identity retained)
unfolding read_candidate
read_candidate-cases run d none retained dir known read = inl refl
read_candidate-cases run d (some identity) none dir known read = inl refl
read_candidate-cases run d (some identity) (some retained) dir known read =
    elim (keep_incomplete-cases run d identity retained (completed_trial_count d.listing) dir known
      read refl) [
        | inl nothing ↦ inl nothing
        | inr (found, incomplete) ↦ inr (identity, found, incomplete)
      ]

candidate-cases : (run : RunManifest) (d : JobDirectory) → Gives run d (candidate run d)
unfolding candidate
candidate-cases run d = elim (Bool-cases d.is_dir) [
  | inl dir ↦
      subst (λ (b : Bool). Gives run d (if b then read_candidate run d d.identity d.run else []))
        (sym dir) (read_candidate-cases run d d.identity d.run dir refl refl)
  | inr file ↦
      subst (λ (b : Bool). Gives run d (if b then read_candidate run d d.identity d.run else []))
        (sym file) (inl refl)
]

-- What a job that was resumed is: a listed directory of the run that lacks results.
pub record IsResumed (run : RunManifest) (directories : List JobDirectory) (c : Candidate)
    : Type 0 where
  pub listed : Memᴰ c.1.1 directories
  pub incomplete : IsIncomplete run c.1.1 c.1.0
  pub started : c.0 ≡ c.1.0.started_at

IsResumed-cons :
    (run : RunManifest) (d : JobDirectory) (directories : List JobDirectory) (c : Candidate)
    → IsResumed run directories c
    → IsResumed run (d ∷ directories) c
IsResumed-cons run d directories c h = record {
  listed = Memᴰ.tail h.listed;
  incomplete = h.incomplete;
  started = h.started;
}

pub candidates-IsResumed :
    (run : RunManifest) (directories : List JobDirectory)
    → All (IsResumed run directories) (flat_map (candidate run) directories)
candidates-IsResumed run [] = tt
candidates-IsResumed run (d ∷ directories) =
    let later =
      All-map (IsResumed-cons run d directories) (flat_map (candidate run) directories)
        (candidates-IsResumed run directories) in
    elim (candidate-cases run d) [
      | inl nothing ↦ rw nothing later
      | inr (identity, found, incomplete) ↦
          rw found
            (record { listed = Memᴰ.head refl; incomplete = incomplete; started = refl }, later)
    ]
