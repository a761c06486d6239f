-- ===== src/Job/Tests.antt =====
-- A job directory with one finished attempt, its manifest, and what is resumed from it.
use nanoeval.Task.{Task}
use nanoeval.Job.Sample.{a_x, as_it_is, b_x, directory, finished_entry, steady, unfinished_entry}
use nanoeval.Sweep.Prefix.{trial_name, short_name, trial_prefix}
use nanoeval.Job.Completed.{completed_attempt_lem, IsFinished, completed_attempt-trial_name}
use mathlib.Core.List.{Memᴰ}
use nanoeval.Sweep.Manifest.{manifest_eq_refl}
use nanoeval.Job.{completed_trial_count, DirEntry, completed_attempt}
use nanoeval.Job.Resume.{JobDirectory, Fresh, resume_or_create, EvalJob}
use nanoeval.Job.Resume.Newest.{resume_or_create-IsReopened, IsReopened}
use nanoeval.Errors.{IoError}
use nanoeval.Job.Binding.Laws.{bind_run_keeps, bind_run-Holds}
use nanoeval.Prelude.Paths.{path_eq}
use nanoeval.Job.Binding.{Disk, Holds, bind_run}
use nanoeval.Sweep.{RunManifest, manifest_eq, manifest_attempt_count, SweepAttempt}
use nanoeval.Prelude.{
  Bool, false, ok, true, [], arith, inr, none, refl, some, ℕ, ◌∷◌, ◌≡◌, Result, ◌≢◌,
}

abbrev smoke : RunManifest
smoke = record { tasks = record { root = "tasks" ∷ "a" ∷ [] } ∷ []; agents = []; trials = 1 }

abbrev twice : RunManifest
twice = record smoke { trials = 2 }

-- another process binds the directory to the other run first
abbrev contended : Disk (RunManifest × Bool)
contended = record steady { raced = some (twice, true) }

bind_run_runs : (bind_run ℕ as_it_is directory steady smoke none).1 ≡ ok tt
unfolding bind_run
bind_run_runs = refl

smoke-Holds : Holds ℕ as_it_is smoke (some (smoke, true))
smoke-Holds = record {
  text = (smoke, true);
  retained = smoke;
  present = refl;
  decoded = refl;
  same_run = manifest_eq_refl smoke;
}

bind_run_keeps_example : (bind_run ℕ as_it_is directory contended smoke none).0 ≡ some (twice, true)
bind_run_keeps_example =
    bind_run_keeps ℕ as_it_is directory contended smoke none (twice, true)
      (inr (refl, refl, (_, refl)))

bind_run-Holds_example : Holds ℕ as_it_is smoke (bind_run ℕ as_it_is directory steady smoke none).0
bind_run-Holds_example =
    bind_run-Holds ℕ as_it_is directory steady smoke none ((omega arith), tt) bind_run_runs

completed_runs :
    (completed_attempt "a__low__001" (ok (ok unfinished_entry ∷ ok finished_entry ∷ [])) ≡ ok true)
    × (completed_attempt "a__low__001" (ok (ok unfinished_entry ∷ [])) ≡ ok false)
    × (completed_attempt "a__low" (ok (ok finished_entry ∷ [])) ≡ ok true)
    × (completed_trial_count (ok (ok unfinished_entry ∷ ok finished_entry ∷ [])) ≡ ok 1)
unfolding completed_attempt completed_trial_count
completed_runs = (refl, refl, refl, refl)

completed_attempt_lem_example :
    (completed_attempt "a__low__001" (ok (ok finished_entry ∷ [])) ≡ ok true
      → (entry : DirEntry) × Memᴰ {A = Result DirEntry IoError} (ok entry) (ok finished_entry ∷ [])
        × IsFinished "a__low__001" entry)
    × (completed_attempt "a__low__001" (ok (ok finished_entry ∷ [])) ≡ ok false
        → (entry : DirEntry)
        → Memᴰ {A = Result DirEntry IoError} (ok entry) (ok finished_entry ∷ [])
        → ¬ IsFinished "a__low__001" entry)
completed_attempt_lem_example = completed_attempt_lem "a__low__001" (ok finished_entry ∷ [])

abbrev opened : JobDirectory
opened = record {
  path = directory;
  is_dir = true;
  identity = some (record { id = 7; started_at = 100 });
  run = some twice;
  listing = ok (ok unfinished_entry ∷ ok finished_entry ∷ []);
  lease = ok tt;
}

abbrev new_job : Fresh
new_job = record { id = 8; now = 200; path = "jobs" ∷ "k" ∷ []; created = ok tt }

abbrev swept_twice : RunManifest
swept_twice = record twice { agents = record { text = "low" } ∷ [] }

abbrev resumable : JobDirectory
resumable = record opened { run = some swept_twice }

abbrev resumed_job : EvalJob
resumed_job = record { id = 7; started_at = 100; directory = directory; resumed = true }

abbrev created_job : EvalJob
created_job = record { id = 8; started_at = 200; directory = "jobs" ∷ "k" ∷ []; resumed = false }

resumes : resume_or_create ℕ (opened ∷ resumable ∷ []) swept_twice new_job ≡ ok resumed_job
unfolding resume_or_create manifest_eq path_eq completed_trial_count manifest_attempt_count
resumes = refl

creates : resume_or_create ℕ (opened ∷ []) swept_twice new_job ≡ ok created_job
unfolding resume_or_create manifest_eq path_eq completed_trial_count manifest_attempt_count
creates = refl

resume_or_create-IsReopened_example : IsReopened (opened ∷ resumable ∷ []) swept_twice resumed_job
resume_or_create-IsReopened_example =
    resume_or_create-IsReopened ℕ swept_twice new_job (opened ∷ resumable ∷ []) resumed_job resumes
      refl

abbrev first_of : Task → SweepAttempt (Unit {0})
first_of task = record {
  task = task;
  agent = record { id = record { text = "low" }; nanocodex = tt };
  trial = 1;
}

abbrev first_result : DirEntry
first_result = record {
  name =
      some
        (trial_name a_x "0123abcd" (some (record { agent = record { text = "low" }; trial = 1 })));
  is_dir = ok true;
  has_result = true;
}

same_short_name : short_name "a/x" ≡ short_name "b/x"
unfolding short_name
same_short_name = refl

-- The result of an attempt of one task counts for the other.
completed_attempt-trial_name_example :
    completed_attempt (trial_prefix (first_of b_x)) (ok (ok first_result ∷ [])) ≢ ok false
completed_attempt-trial_name_example =
    completed_attempt-trial_name (first_of a_x) (first_of b_x) "0123abcd" first_result
      (ok first_result ∷ []) same_short_name refl refl (Memᴰ.head refl) refl refl refl
