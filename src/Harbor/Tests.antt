-- ===== src/Harbor/Tests.antt =====
-- A job of two results and a failure that is resumed once, and the trials of its directory.
use mathlib.Core.List.{Memᴰ}
use nanoeval.Harbor.Stats.{HarborArtifacts, job_file}
use nanoeval.Harbor.{HarborJobResult, TrialFailure, TrialResult}
use nanoeval.Harbor.Totals.{IsRecorded, job_file-IsRecorded, job_file-resumed, CountsAs}
use nanoeval.Harbor.Passes.{
  Arithmetic, HarborPassAtKTrial, TrialEntry, eligible_k_values, group_trials,
}
use nanoeval.Harbor.Eligible.{IsEligible, eligible_k_values_lem}
use nanoeval.Harbor.Groups.{IsPartial, group_trials-IsPartial}
use nanoeval.Prelude.{
  Bool, List, Result, String, [], none, ok, refl, some, true, ℕ, ◌*◌, ◌+◌, ◌-◌, ◌/◌, ◌==◌, ◌↔◌, ◌∷◌,
  ◌≡◌, Option, arith,
}
use nanoeval.Prelude.Dict.{insert, lookup, Dict}

abbrev scored_trial : String → String → TrialResult ℕ
scored_trial name reward = record {
  attempt_id = name;
  trial_name = name;
  model = "gpt";
  rewards = ("reward", reward) ∷ [];
  input_tokens = 100;
  cached_input_tokens = 40;
  output_tokens = 7;
  cost_usd = some 3;
}

abbrev failed_trial : TrialFailure
failed_trial = record {
  attempt_id = "c";
  trial_name = "c";
  model = "gpt";
  exception_type = "AgentTimeoutError";
}

abbrev cents : ℕ → ℕ → ℕ
cents a b = a + b

abbrev first_run : HarborArtifacts cents 0 ℕ
first_run = record { job_id = "job"; started_at = 5; baseline = none; planned_attempts = some 4 }

abbrev first_file : HarborJobResult ℕ ℕ
first_file = job_file cents 0 first_run 9 [] (scored_trial "a" "1.0" ∷ []) (failed_trial ∷ []) 2

-- Two of the four planned trials have ended; the entry counts one of each kind.
first_file_runs :
    (first_file.stats.n_completed_trials ≡ 2)
    × (first_file.stats.n_pending_trials ≡ 2)
    × (first_file.finished_at ≡ none)
    × (lookup "nanocodex__gpt__nanoeval/local" first_file.stats.evals
        ≡ some (record {
          n_trials = 1;
          n_errors = 1;
          pass_at_k = [];
          reward_stats = ("reward", ("1.0", "a" ∷ []) ∷ []) ∷ [];
          exception_stats = ("AgentTimeoutError", "c" ∷ []) ∷ [];
        }))
unfolding job_file lookup insert
first_file_runs = (refl, refl, refl, refl)

job_file-IsRecorded_example :
    IsRecorded cents 0 first_run (scored_trial "a" "1.0" ∷ []) (failed_trial ∷ []) first_file
job_file-IsRecorded_example =
    job_file-IsRecorded cents 0 first_run 9 [] (scored_trial "a" "1.0" ∷ []) (failed_trial ∷ []) 2
      (record { ordered = tt; completed_trials = refl; errored_trials = refl })

abbrev second_run : HarborArtifacts cents 0 ℕ
second_run = record first_run { baseline = some first_file }

abbrev resumed_file : HarborJobResult ℕ ℕ
resumed_file = job_file cents 0 second_run 12 [] (scored_trial "b" "0.0" ∷ []) [] 1

abbrev whole_file : HarborJobResult ℕ ℕ
whole_file =
    job_file cents 0 first_run 12 [] (scored_trial "a" "1.0" ∷ scored_trial "b" "0.0" ∷ [])
      (failed_trial ∷ []) 3

job_file-resumed_example : CountsAs cents 0 resumed_file whole_file
job_file-resumed_example =
    job_file-resumed cents 0 first_run 9 12 [] [] (scored_trial "a" "1.0" ∷ [])
      (scored_trial "b" "0.0" ∷ []) (failed_trial ∷ []) [] 2 1 3 (omega arith) (omega arith)
      (omega arith)

eligible_runs : eligible_k_values 11 ≡ 2 ∷ 4 ∷ 5 ∷ 8 ∷ 10 ∷ []
unfolding eligible_k_values
eligible_runs = refl

eligible_k_values_lem_example : Memᴰ 10 (eligible_k_values 11) ↔ IsEligible 11 10
eligible_k_values_lem_example = eligible_k_values_lem 11 10

-- Rewards are thousandths.
abbrev no_floats : Arithmetic ℕ
no_floats = record {
  of_u32 = λ n. n;
  add = λ a b. a + b;
  minus = λ a b. a - b;
  times = λ a b. a * b;
  over = λ a b. a / b;
}

abbrev is_nothing : ℕ → Bool
is_nothing n = n == 0

abbrev is_whole : ℕ → Bool
is_whole n = n == 1000

abbrev half_passed : HarborPassAtKTrial ℕ
half_passed = record {
  task_name = "write";
  source = none;
  agent_name = "nanocodex";
  model = some "gpt";
  rewards = some (("reward", 500) ∷ []);
}

abbrev passed_trial : HarborPassAtKTrial ℕ
passed_trial = record half_passed { rewards = some (("reward", 1000) ∷ []) }

abbrev entry_of : HarborPassAtKTrial ℕ → Result (TrialEntry ℕ String) String
entry_of trial = ok (record { is_dir = ok true; trial = ok (some trial) })

abbrev listing : List (Result (TrialEntry ℕ String) String)
listing = entry_of half_passed ∷ entry_of passed_trial ∷ []

abbrev left_out : Dict (Option (Dict (List ℕ)))
left_out = ("nanocodex__gpt__adhoc", none) ∷ []

listing_groups : group_trials no_floats is_nothing is_whole listing [] ≡ ok left_out
unfolding group_trials lookup insert
listing_groups = refl

group_trials-IsPartial_example : (lookup "nanocodex__gpt__adhoc" left_out ≡ some none) ↔ (
    (t : HarborPassAtKTrial ℕ) × Memᴰ t (half_passed ∷ passed_trial ∷ [])
    × IsPartial no_floats is_nothing is_whole "nanocodex__gpt__adhoc" t)
group_trials-IsPartial_example =
    group_trials-IsPartial no_floats is_nothing is_whole listing left_out "nanocodex__gpt__adhoc"
      listing_groups
