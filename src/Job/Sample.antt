-- ===== src/Job/Sample.antt =====
-- Concrete tasks, directory entries, manifests and system calls, on which the operations are run.
use nanoeval.Prelude.{Bool, Result, String, [], arith, false, none, ok, some, true, ◌∷◌, ◌≡◌}
use nanoeval.Task.{Task, NetworkPolicy, VerifierEnvironmentMode}
use nanoeval.Job.{DirEntry}
use nanoeval.Job.Binding.{Disk, ManifestJson}
use nanoeval.Sweep.{RunManifest}
use nanoeval.Prelude.Paths.{FilePath}

abbrev pub written : RunManifest × Bool → Result (RunManifest × Bool) String
written text = ok text

abbrev pub read_back : RunManifest × Bool → Result RunManifest String
read_back text = ok (text.0)

pub read_back-written :
    (run : RunManifest) (text : RunManifest × Bool)
    → written (run, false) ≡ written text
    → read_back text ≡ ok run
read_back-written run text e = ground arith

-- the text of a manifest, with a note of the newline behind it
abbrev pub as_it_is : ManifestJson
as_it_is = record {
  Bytes = RunManifest × Bool;
  newline = λ text. (text.0, true);
  encode = λ run. written (run, false);
  decode = read_back;
  round_trip = λ run text trials agents e. read_back-written run text e;
}

abbrev pub directory : FilePath
directory = "jobs" ∷ "j" ∷ []

abbrev pub steady : Disk (RunManifest × Bool)
steady = record { written = ok tt; readable = ok tt; raced = none }

abbrev pub finished_entry : DirEntry
finished_entry = record { name = some "a__low__001__0123"; is_dir = ok true; has_result = true }

abbrev pub unfinished_entry : DirEntry
unfinished_entry = record finished_entry { has_result = false }

abbrev pub task_named : String → FilePath → Task
task_named name root = record {
  root = root;
  name = name;
  description = "";
  prompt = "";
  image = "local";
  agent_timeout = 60;
  verifier = record {
    script = root;
    timeout = 60;
    environment = [];
    environment_mode = VerifierEnvironmentMode.same;
    collect = [];
  };
  artifacts = [];
  resources = record { cpus = 1; memory_mb = 128; storage_mb = 128; gpus = 0 };
  network = NetworkPolicy.public;
  environment = [];
  requires_compose = false;
}

abbrev pub a_x : Task
a_x = task_named "a/x" ("tasks" ∷ "ax" ∷ [])

abbrev pub b_x : Task
b_x = task_named "b/x" ("tasks" ∷ "bx" ∷ [])
