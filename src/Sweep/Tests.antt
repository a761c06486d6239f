-- ===== src/Sweep/Tests.antt =====
-- Runs of the sweep's operations, and its theorems at concrete inputs.
use nanoeval.Sweep.Manifest.{manifest_eq_iff}
use mathlib.Core.List.{Perm}
use nanoeval.Sweep.Identity.Grammar.{new_agent_id-eq-ok_iff}
use nanoeval.Sweep.Build.{sweep_of, IsAccepted, build-eq-ok_iff}
use nanoeval.Sweep.Expansion.{get_elem?-attempts}
use nanoeval.Prelude.Paths.{display}
use nanoeval.Task.{same, Task, public}
use nanoeval.Sweep.Prefix.{trial_prefix, trial_name}
use nanoeval.Sweep.{
  manifest_eq, build, SweepAgent, manifest, Sweep, SweepBuilder, attempts, duplicate_task,
}
use nanoeval.Sweep.Identity.{IsAgentId, invalid_character, new_agent_id}
use nanoeval.Prelude.{
  ℕ, String, [], arith, err, false, get_elem?, ok, refl, some, true, ◌*◌, ◌+◌, ◌↔◌, ◌∷◌, ◌≡◌,
}

abbrev greeting : Task
greeting = record {
  root = "tasks" ∷ "write-greeting" ∷ [];
  name = "nanoeval/write-greeting";
  description = "";
  prompt = "Write it.";
  image = "local-dockerfile";
  agent_timeout = 60;
  verifier = record {
    script = "tasks" ∷ "write-greeting" ∷ "tests" ∷ "test.sh" ∷ [];
    timeout = 60;
    environment = [];
    environment_mode = same;
    collect = [];
  };
  artifacts = [];
  resources = record { cpus = 1; memory_mb = 128; storage_mb = 128; gpus = 0 };
  network = public;
  environment = [];
  requires_compose = false;
}

abbrev uppercase : Task
uppercase = record greeting {
  root = "tasks" ∷ "uppercase-message" ∷ [];
  name = "nanoeval/uppercase-message";
}

abbrev low : SweepAgent ℕ
low = record { id = record { text = "low" }; nanocodex = 0 }

abbrev high : SweepAgent ℕ
high = record { id = record { text = "high" }; nanocodex = 1 }

abbrev two_by_two : SweepBuilder ℕ
two_by_two = record { tasks = greeting ∷ uppercase ∷ []; agents = low ∷ high ∷ []; trials = 2 }

abbrev swept : Sweep ℕ
swept = record {
  tasks = greeting ∷ uppercase ∷ [];
  agents = low ∷ high ∷ [];
  trials = 2;
  attempt_count = 8;
}

build_runs : build two_by_two ≡ ok swept
unfolding build
build_runs = refl

build-duplicate :
    build (record two_by_two { tasks = greeting ∷ greeting ∷ [] })
    ≡ err (duplicate_task "/tasks/write-greeting")
unfolding build display
build-duplicate = refl

prefix_runs :
    trial_prefix (record { task = greeting; agent = low; trial = 7 }) ≡ "write-greeting__low__007"
unfolding trial_prefix
prefix_runs = refl

name_runs :
    trial_name greeting "0123abcd" (some (record { agent = low.id; trial = 12 }))
    ≡ "write-greeting__low__012__0123abcd"
unfolding trial_name
name_runs = refl

slash_runs : new_agent_id "mcp/on" ≡ err (invalid_character "mcp/on" "/")
unfolding new_agent_id
slash_runs = refl

new_agent_id-eq-ok_iff_example :
    (new_agent_id "gpt-5.1_x" ≡ ok (record { text = "gpt-5.1_x" }))
    ↔ (IsAgentId "gpt-5.1_x" × (◌≡◌ {A = String} "gpt-5.1_x" "gpt-5.1_x"))
new_agent_id-eq-ok_iff_example = new_agent_id-eq-ok_iff "gpt-5.1_x" (record { text = "gpt-5.1_x" })

build-eq-ok_iff_example :
    (build two_by_two ≡ ok swept) ↔ (IsAccepted two_by_two × (swept ≡ sweep_of two_by_two))
build-eq-ok_iff_example = build-eq-ok_iff two_by_two swept

get_elem?-attempts_example :
    get_elem? (attempts swept) (1 * 4 + (1 * 2 + 0))
    ≡ some (record { task = uppercase; agent = low; trial = 2 })
get_elem?-attempts_example = get_elem?-attempts swept 1 1 0 uppercase low (omega arith) refl refl

manifest_eq_iff_example : (manifest_eq (manifest swept) (manifest swept) ≡ true) ↔ (
    (2 ≡ swept.trials)
    × ((manifest swept).agents ≡ (manifest swept).agents)
    × Perm (manifest swept).tasks (manifest swept).tasks)
unfolding manifest
manifest_eq_iff_example = manifest_eq_iff (manifest swept) (manifest swept)
