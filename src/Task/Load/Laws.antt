-- ===== src/Task/Load/Laws.antt =====
-- When a task of crates/nanoeval/src/task.rs loads, and what it then is.
use nanoeval.Prelude.{
  String, arith, false, ok, true, ◌<◌, ◌↔◌, ◌≡◌, Bool, Result, bind-eq-ok, eq_iff, err, not, refl,
  str_eq,
}
use nanoeval.Prelude.Paths.{FilePath, join}
use nanoeval.Prelude.Lines.{is_blank}
use nanoeval.Task.{Task, public}
use nanoeval.Task.Load.{
  Clock, RawTask, TaskDirectory, build_task, duration, positive, required_string, TaskLoadError,
  ensure, load, map_err, read_file, strip_leading_canary, task_config, task_environment,
  task_instruction, verifier_script,
}

-- What the fields of a configuration and of a built task have to do with each other.
pub record IsBuilt {Seconds : Type 0} (clock : Clock Seconds) (root : FilePath) (prompt : String)
    (raw : RawTask Seconds) (task : Task) : Type 0 where
  pub at_root : task.root ≡ root
  pub prompted : task.prompt ≡ prompt
  pub named : (task.name ≡ raw.task_name) × (is_blank task.name ≡ false)
  pub agent_time :
      (clock.is_at_most_zero raw.agent_timeout_sec ≡ false)
      × (clock.try_from_secs raw.agent_timeout_sec ≡ ok task.agent_timeout)
  pub verifier_time :
      (clock.is_at_most_zero raw.verifier.timeout_sec ≡ false)
      × (clock.try_from_secs raw.verifier.timeout_sec ≡ ok task.verifier.timeout)
  pub cpus : (task.resources.cpus ≡ raw.environment.cpus) × (0 < task.resources.cpus)
  pub memory :
      (task.resources.memory_mb ≡ raw.environment.memory_mb) × (0 < task.resources.memory_mb)
  pub storage :
      (task.resources.storage_mb ≡ raw.environment.storage_mb) × (0 < task.resources.storage_mb)
  pub network : (task.network ≡ public) ↔ (raw.environment.allow_internet ≡ true)

module _ {Seconds E : Type 0} (clock : Clock Seconds) (directory : TaskDirectory Seconds E) where
  build_task-IsBuilt :
      (root : FilePath) (prompt : String) (raw : RawTask Seconds) (task : Task)
      → build_task clock directory root prompt raw ≡ ok task
      → IsBuilt clock root prompt raw task
  unfolding build_task required_string duration positive
  build_task-IsBuilt root prompt raw task h = record {
    at_root = ground (arith, h);
    prompted = ground (arith, h);
    named = ground (arith, h);
    agent_time = ground (arith, h);
    verifier_time = ground (arith, h);
    cpus = ground (arith, h);
    memory = ground (arith, h);
    storage = ground (arith, h);
    network = ground (arith, h);
  }

  map_err-eq-ok :
      {A F : Type 0} (f : E → F) (r : Result A E) {a : A} → map_err f r ≡ ok a → r ≡ ok a
  map_err-eq-ok f (ok b) h = cc
  map_err-eq-ok f (err e) h = absurd (cc)

  ensure-eq-ok : (b : Bool) (error : TaskLoadError E) {u : Unit} → ensure b error ≡ ok u → b ≡ true
  unfolding ensure
  ensure-eq-ok true error h = refl
  ensure-eq-ok false error h = absurd (cc)

  -- What the directory of a task that loads has.
  pub record IsLoaded (requested : FilePath) (task : Task) : Type 0 where
    pub root : FilePath
    pub raw : RawTask Seconds
    pub config_text : String
    pub instruction : String
    pub resolved : directory.canonicalize requested ≡ ok root
    pub in_directory : directory.is_dir root ≡ true
    pub configured : directory.read_to_string (join root task_config) ≡ ok config_text
    pub parsed : directory.parse config_text ≡ ok raw
    pub schema : raw.schema_version ≡ "1.1"
    pub instructed : directory.read_to_string (join root task_instruction) ≡ ok instruction
    pub prompted : is_blank (strip_leading_canary instruction) ≡ false
    pub script : directory.is_file (join root verifier_script) ≡ true
    pub environment : directory.is_dir (join root task_environment) ≡ true
    pub built : IsBuilt clock root (strip_leading_canary instruction) raw task

  -- A task that loads is that of the resolved directory: its configuration has schema 1.1 and parses,
  -- its prompt is the instruction without the leading canary and is not blank, the verifier's script
  -- and the environment are there, its name is not blank, its configured timeouts are not at most zero
  -- and its timeouts are what they convert to, and it has at least one processor, some memory and some
  -- storage; its network is public exactly when the configuration allows the internet.
  pub load-IsLoaded :
      (requested : FilePath) (task : Task)
      → load clock directory requested ≡ ok task
      → IsLoaded requested task
  unfolding load read_file
  load-IsLoaded requested task h =
      let (root, resolved, h1) = bind-eq-ok h in
      let (u1, in_directory, h2) = bind-eq-ok h1 in
      let (text, configured, h3) = bind-eq-ok h2 in
      let (raw, parsed, h4) = bind-eq-ok h3 in
      let (u2, schema, h5) = bind-eq-ok h4 in
      let (instruction, instructed, h6) = bind-eq-ok h5 in
      let (u3, prompted, h7) = bind-eq-ok h6 in
      let (u4, script, h8) = bind-eq-ok h7 in
      let (u5, environment, h9) = bind-eq-ok h8 in
      let not_blank = ensure-eq-ok (not (is_blank (strip_leading_canary instruction))) _ prompted in
      record {
        root = root;
        raw = raw;
        config_text = text;
        instruction = instruction;
        resolved = map_err-eq-ok _ (directory.canonicalize requested) resolved;
        in_directory = ensure-eq-ok (directory.is_dir root) _ in_directory;
        configured = map_err-eq-ok _ (directory.read_to_string (join root task_config)) configured;
        parsed = map_err-eq-ok _ (directory.parse text) parsed;
        schema =
            (eq_iff raw.schema_version "1.1").0
              (ensure-eq-ok (str_eq raw.schema_version "1.1") _ schema);
        instructed =
            map_err-eq-ok _ (directory.read_to_string (join root task_instruction)) instructed;
        prompted = ground (arith, not_blank);
        script = ensure-eq-ok (directory.is_file (join root verifier_script)) _ script;
        environment = ensure-eq-ok (directory.is_dir (join root task_environment)) _ environment;
        built = build_task-IsBuilt root (strip_leading_canary instruction) raw task h9;
      }
