-- ===== src/Task/Load/Tests.antt =====
-- A task directory, and the prompts of some instructions.
use nanoeval.Prelude.{ℕ, String, [], false, none, ok, refl, true, ◌*◌, ◌==◌, ◌∷◌, ◌≡◌}
use nanoeval.Prelude.Lines.{lines, contains_lowercase, is_blank, join_lines, trim}
use nanoeval.Task.{Task, public, same}
use nanoeval.Task.Load.{
  load, Clock, RawTask, TaskDirectory, build_task, duration, ensure, is_canary, positive, read_file,
  required_string, strip_leading_canary,
}
use nanoeval.Task.Load.Laws.{load-IsLoaded, IsLoaded}

abbrev whole_seconds : Clock ℕ
whole_seconds = record {
  is_at_most_zero = λ seconds. seconds == 0;
  try_from_secs = λ seconds. ok (seconds * 1000000000);
}

abbrev raw_task : RawTask ℕ
raw_task = record {
  schema_version = "1.1";
  artifacts = [];
  task_name = "org/task";
  task_description = "";
  metadata_docker_compose = false;
  agent_timeout_sec = 2;
  verifier = record { timeout_sec = 1; env = []; environment_mode = same; collect = [] };
  environment = record {
    docker_image = none;
    cpus = 1;
    memory_mb = 2048;
    storage_mb = 10240;
    gpus = 0;
    allow_internet = true;
    custom_docker_compose = false;
    env = [];
  };
}

abbrev task_files : TaskDirectory ℕ String
task_files = record {
  canonicalize = λ path. ok ("tasks" ∷ path);
  is_dir = λ path. true;
  is_file = λ path. true;
  read_to_string = λ path. ok "# canary 123\n\nDo it.\n";
  parse = λ text. ok raw_task;
}

abbrev loaded_task : Task
loaded_task = record {
  root = "tasks" ∷ "task" ∷ [];
  name = "org/task";
  description = "";
  prompt = "Do it.";
  image = "local-dockerfile";
  agent_timeout = 2000000000;
  verifier = record {
    script = "tasks" ∷ "task" ∷ "tests" ∷ "test.sh" ∷ [];
    timeout = 1000000000;
    environment = [];
    environment_mode = same;
    collect = [];
  };
  artifacts = [];
  resources = record { cpus = 1; memory_mb = 2048; storage_mb = 10240; gpus = 0 };
  network = public;
  environment = [];
  requires_compose = false;
}

task_loads : load whole_seconds task_files ("task" ∷ []) ≡ ok loaded_task
unfolding load ensure read_file strip_leading_canary is_canary is_blank build_task required_string
    duration positive trim lines join_lines contains_lowercase
task_loads = refl

load-IsLoaded_example : IsLoaded whole_seconds task_files ("task" ∷ []) loaded_task
load-IsLoaded_example = load-IsLoaded whole_seconds task_files ("task" ∷ []) loaded_task task_loads

-- A canary that follows a blank line stays in the prompt, and so does a later carriage return.
canaries_stripped :
    (strip_leading_canary "<!-- CANARY -->\r\n# x canary\n \nGo\r\nOn\r" ≡ "Go\nOn\r")
    × (strip_leading_canary "\n# canary\nGo" ≡ "# canary\nGo")
    × (strip_leading_canary "# canary" ≡ "")
unfolding strip_leading_canary is_canary is_blank trim lines join_lines contains_lowercase
canaries_stripped = (refl, refl, refl)
