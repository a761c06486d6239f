-- ===== src/Evaluator/Sweeping/Tests.antt =====
-- A sweep of two tasks that is resumed after one attempt, and an evaluator for it.
use nanoeval.Task.{Task}
use nanoeval.Errors.{EvalError}
use nanoeval.Prelude.{
  ℕ, Bool, List, Result, String, [], arith, false, filter, length, map, none, ok, refl, some,
  str_eq, true, ◌∷◌, ◌≡◌,
}
use nanoeval.Job.Sample.{a_x, as_it_is, directory, finished_entry, steady, task_named}
use nanoeval.Evaluator.Sweeping.{sweep, AttemptInput, AttemptOutput, remaining_attempts}
use nanoeval.Evaluator.Sweeping.Accounts.{
  sweep-eq-ok, Answers, open_attempts, output_of, remaining_attempts-eq-ok, report_of,
}
use nanoeval.Sweep.{
  Sweep, SweepAttempt, RunManifest, SweepAgent, attempts, manifest, manifest_attempt_count,
}
use nanoeval.Job.{completed_attempt, Listing}
use nanoeval.Sweep.Prefix.{trial_prefix}
use nanoeval.Evaluator.Configuration.Laws.{IsBuilt, HasRun, build_evaluator-IsBuilt}
use nanoeval.Evaluator.Configuration.{NanoevalBuilder, World, Nanoeval, build_evaluator, resume}
use nanoeval.Evaluator.Ordering.{succeeded}
use mathlib.Core.List.Permᴰ
use nanoeval.Job.Resume.{resume_or_create}
use nanoeval.Job.Binding.{bind_run}
use nanoeval.Admission.{AdmissionController}
use nanoeval.Sweep.Identity.Grammar.{new_agent_id-eq-ok_iff}
use nanoeval.Sweep.Identity.{IsAgentId, new_agent_id}

abbrev c_y : Task
c_y = task_named "c/y" ("tasks" ∷ "y" ∷ [])

abbrev low : SweepAgent ℕ
low = record { id = record { text = "low" }; nanocodex = 5 }

abbrev resumed : Sweep ℕ
resumed = record { tasks = a_x ∷ c_y ∷ []; agents = low ∷ []; trials = 1; attempt_count = 2 }

abbrev one_done : Listing
one_done = ok (ok (record finished_entry { name = some "x__low__001__0123abcd" }) ∷ [])

abbrev done : SweepAttempt ℕ → Bool
done attempt = str_eq attempt.task.name "a/x"

abbrev two_attempts : List (SweepAttempt ℕ)
two_attempts =
    record { task = a_x; agent = low; trial = 1 }
    ∷ record { task = c_y; agent = low; trial = 1 }
    ∷ []

abbrev finishing : List (AttemptInput ℕ) → List (ℕ × Result (AttemptOutput String) (EvalError ℕ))
finishing inputs = succeeded 0 (map (output_of (λ input. input.task.name)) inputs)

bound : (bind_run ℕ as_it_is directory steady (manifest resumed) none).1 ≡ ok tt
unfolding bind_run
bound = refl

attempts_of : attempts resumed ≡ two_attempts
unfolding attempts
attempts_of = refl

answers : Answers one_done done two_attempts
unfolding completed_attempt trial_prefix
answers = (refl, (refl, tt))

remaining_attempts-eq-ok_example :
    (remaining_attempts ℕ as_it_is directory steady none one_done resumed).1
    ≡ ok (length (open_attempts one_done done (attempts resumed)))
remaining_attempts-eq-ok_example =
    remaining_attempts-eq-ok ℕ as_it_is directory steady none one_done resumed done bound
      (rw attempts_of answers)

sweep-eq-ok_example :
    (sweep ℕ as_it_is finishing directory steady none one_done resumed).1
    ≡ ok (record {
      attempts =
          map
            (report_of (λ input. input.task.name))
            (open_attempts one_done done (attempts resumed));
      skipped = length (filter done (attempts resumed));
    })
sweep-eq-ok_example =
    sweep-eq-ok ℕ as_it_is directory steady none one_done resumed done finishing
      (λ input. input.task.name) bound (rw attempts_of answers) (λ inputs. Permᴰ.refl _)

report_runs :
    map (report_of (λ input. input.task.name)) (open_attempts one_done done (attempts resumed))
    ≡ record { agent = record { text = "low" }; trial = 1; result = "c/y" } ∷ []
unfolding attempts
report_runs = refl

abbrev world : World (RunManifest × Bool)
world = record {
  directories = [];
  new_job = record { id = 8; now = 200; path = directory; created = ok tt };
  disk = steady;
  run_file = λ path. none;
}

abbrev for_sweep : NanoevalBuilder ℕ ℕ
for_sweep = record {
  nanocodex = 0;
  output_directory = "jobs" ∷ [];
  max_concurrency = 2;
  max_memory_mb = some 4;
  attempt_agent = none;
  finite_run = some (record { manifest = manifest resumed; mode = resume });
}

abbrev limits : AdmissionController
limits = record { max_concurrency = 2; max_memory_mb = some 4 }

abbrev evaluator : Nanoeval ℕ ℕ
evaluator = record {
  nanocodex = 0;
  job = record { id = 8; started_at = 200; directory = directory; resumed = false };
  planned_attempts = some 2;
  admission = limits;
  max_concurrency = 2;
  max_memory_mb = some 4;
  next_prompt_cache_attempt = 0;
  attempt_agent = none;
}

builds : build_evaluator ℕ as_it_is world for_sweep ≡ ok (evaluator, some (manifest resumed, true))
unfolding build_evaluator resume_or_create manifest_attempt_count manifest
builds = refl

low_IsAgentId : IsAgentId "low"
unfolding new_agent_id
low_IsAgentId = ((new_agent_id-eq-ok_iff "low" (record { text = "low" })).0 refl).0

has_run : HasRun ℕ as_it_is for_sweep.finite_run
unfolding manifest
has_run = (omega arith, (low_IsAgentId, tt))

build_evaluator-IsBuilt_example :
    IsBuilt ℕ as_it_is world for_sweep evaluator (some (manifest resumed, true))
build_evaluator-IsBuilt_example =
    build_evaluator-IsBuilt ℕ as_it_is world for_sweep evaluator (some (manifest resumed, true))
      has_run builds
