-- ===== src/Task/Load.antt =====
-- `Task::load` of crates/nanoeval/src/task.rs. The directory of a task is a value that says what each
-- of its files holds; `Seconds` is the type of a timeout in the configuration, with the two parts of
-- `duration` that are arithmetic of floating-point numbers; `E` is the error of the operating system
-- and of the TOML parser.
pub mod Laws
mod Tests
use nanoeval.Prelude.{
  ◌>>◌, ℕ, Bool, List, Option, Result, String, [], err, false, if◌then◌else◌, none, not, ok, some,
  str_eq, true, ◌&&◌, ◌==◌, ◌>>=◌, ◌||◌, ◌∷◌,
}
use nanoeval.Prelude.Paths.{FilePath, join}
use nanoeval.Prelude.Dict.{Dict}
use nanoeval.Prelude.Lines.{lines, contains_lowercase, ends_with, is_blank, join_lines, trim}
use nanoeval.Task.{Task, VerifierCollect, VerifierEnvironmentMode, disabled, public}
use text.Mathlib.Text.{starts_with}

-- Where the source's message names a key of the configuration, `invalid` holds the key alone.
pub data TaskLoadError (E : Type 0) : Type 0 where
  resolve_directory : FilePath → E → TaskLoadError E
  read_failed : FilePath → E → TaskLoadError E
  parse_failed : FilePath → E → TaskLoadError E
  unsupported_schema : String → TaskLoadError E
  invalid : FilePath → String → TaskLoadError E
  missing_file : FilePath → TaskLoadError E

pub record RawVerifier (Seconds : Type 0) : Type 0 where
  pub timeout_sec : Seconds
  pub env : Dict String
  pub environment_mode : VerifierEnvironmentMode
  pub collect : List VerifierCollect

pub record RawEnvironment : Type 0 where
  pub docker_image : Option String
  pub cpus : ℕ
  pub memory_mb : ℕ
  pub storage_mb : ℕ
  pub gpus : ℕ
  pub allow_internet : Bool
  pub custom_docker_compose : Bool
  pub env : Dict String

-- `task` and `metadata` by their fields
pub record RawTask (Seconds : Type 0) : Type 0 where
  pub schema_version : String
  pub artifacts : List FilePath
  pub task_name : String
  pub task_description : String
  pub metadata_docker_compose : Bool
  pub agent_timeout_sec : Seconds
  pub verifier : RawVerifier Seconds
  pub environment : RawEnvironment

pub record TaskDirectory (Seconds E : Type 0) : Type 0 where
  pub canonicalize : FilePath → Result FilePath E
  pub is_dir : FilePath → Bool
  pub is_file : FilePath → Bool
  pub read_to_string : FilePath → Result String E
  pub parse : String → Result (RawTask Seconds) E

pub record Clock (Seconds : Type 0) : Type 0 where
  pub is_at_most_zero : Seconds → Bool
  pub try_from_secs : Seconds → Result ℕ String

abbrev pub task_config : FilePath
task_config = "task.toml" ∷ []

abbrev pub task_instruction : FilePath
task_instruction = "instruction.md" ∷ []

abbrev pub task_environment : FilePath
task_environment = "environment" ∷ []

abbrev pub verifier_script : FilePath
verifier_script = "tests" ∷ "test.sh" ∷ []

-- `is_canary`
unfoldable pub is_canary : String → Bool
unfolding trim contains_lowercase
is_canary line =
    let text = trim line in
    (starts_with text "#" || (starts_with text "<!--" && ends_with text "-->"))
    && contains_lowercase text "canary"

-- the two loops over `peek`
abbrev pub skip_while : (String → Bool) → List String → List String
skip_while p [] = []
skip_while p (line ∷ later) = let rest = skip_while p later in if p line then rest else line ∷ later

-- `strip_leading_canary`
unfoldable pub strip_leading_canary : String → String
unfolding lines is_canary is_blank join_lines
strip_leading_canary text = join_lines (skip_while is_blank (skip_while is_canary (lines text)))

module _ {E : Type 0} where
  abbrev pub map_err : {A F : Type 0} → (E → F) → Result A E → Result A F
  map_err f (ok a) = ok a
  map_err f (err error) = err (f error)

  -- `required_string`
  unfoldable pub required_string : FilePath → String → String → Result String (TaskLoadError E)
  unfolding is_blank
  required_string path field value = if is_blank value then err (invalid path field) else ok value

  -- `positive`
  unfoldable pub positive : FilePath → String → ℕ → Result ℕ (TaskLoadError E)
  positive path field value = if value == 0 then err (invalid path field) else ok value

  -- a check that ends the loading
  unfoldable pub ensure : Bool → TaskLoadError E → Result (Unit {0}) (TaskLoadError E)
  ensure true error = ok tt
  ensure false error = err error

  -- `duration`
  unfoldable pub duration :
      {Seconds : Type 0} → Clock Seconds → FilePath → String → Seconds → Result ℕ (TaskLoadError E)
  duration clock path field seconds =
      if clock.is_at_most_zero seconds
      then err (invalid path field)
      else elim (clock.try_from_secs seconds) [
        | ok nanoseconds ↦ ok nanoseconds
        | err message ↦ err (invalid path message)
      ]

  module _ {Seconds : Type 0} (clock : Clock Seconds) (directory : TaskDirectory Seconds E) where
    open directory use {canonicalize, is_dir, is_file, read_to_string, parse}

    -- `read`
    unfoldable pub read_file : FilePath → Result String (TaskLoadError E)
    read_file path = map_err (read_failed path) (read_to_string path)

    -- The record that is built: the checks of its fields in their order.
    unfoldable pub build_task : FilePath → String → RawTask Seconds → Result Task (TaskLoadError E)
    unfolding required_string duration positive
    build_task root prompt raw =
        let config_path = join root task_config in
        do
          name ← required_string config_path "task.name" raw.task_name
          agent_timeout ← duration clock config_path "agent.timeout_sec" raw.agent_timeout_sec
          timeout ← duration clock config_path "verifier.timeout_sec" raw.verifier.timeout_sec
          cpus ← positive config_path "environment.cpus" raw.environment.cpus
          memory_mb ← positive config_path "environment.memory_mb" raw.environment.memory_mb
          storage_mb ← positive config_path "environment.storage_mb" raw.environment.storage_mb
          ok (record {
            root = root;
            name = name;
            description = raw.task_description;
            prompt = prompt;
            image = elim raw.environment.docker_image [
              | some image ↦ image
              | none ↦ "local-dockerfile"
            ];
            agent_timeout = agent_timeout;
            verifier = record {
              script = join root verifier_script;
              timeout = timeout;
              environment = raw.verifier.env;
              environment_mode = raw.verifier.environment_mode;
              collect = raw.verifier.collect;
            };
            artifacts = raw.artifacts;
            resources = record {
              cpus = cpus;
              memory_mb = memory_mb;
              storage_mb = storage_mb;
              gpus = raw.environment.gpus;
            };
            network = if raw.environment.allow_internet then public else disabled;
            environment = raw.environment.env;
            requires_compose = raw.metadata_docker_compose || raw.environment.custom_docker_compose;
          })

    -- `Task::load`
    unfoldable pub load : FilePath → Result Task (TaskLoadError E)
    unfolding ensure read_file strip_leading_canary is_blank build_task
    load requested = do
      root ← map_err (resolve_directory requested) (canonicalize requested)
      ensure (is_dir root) (invalid root "task root is not a directory")
      config_text ← read_file (join root task_config)
      raw ← map_err (parse_failed (join root task_config)) (parse config_text)
      ensure (str_eq raw.schema_version "1.1") (unsupported_schema raw.schema_version)
      instruction ← read_file (join root task_instruction)
      let prompt = strip_leading_canary instruction in
          do
            ensure (not (is_blank prompt))
                (invalid (join root task_instruction) "instruction is empty")
            ensure (is_file (join root verifier_script)) (missing_file (join root verifier_script))
            ensure (is_dir (join root task_environment)) (missing_file (join root task_environment))
            build_task root prompt raw
