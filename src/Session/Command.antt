-- ===== src/Session/Command.antt =====
-- The commands of crates/nanocodex-vm/src/session.rs, as a caller builds them.
use nanoeval.Prelude.{List, String, [], if◌then◌else◌, ltb, ℕ, ◌++◌, ◌-◌, ◌/◌, ◌^◌, ◌∷◌}

-- Times are in nanoseconds, as a `Duration` holds them.
pub record VmCommand : Type 0 where
  pub program : String
  pub arguments : List String
  pub current_directory : String
  pub environment : List (String × String)
  pub timeout : ℕ

unfoldable pub new_command : String → VmCommand
new_command program = record {
  program = program;
  arguments = [];
  current_directory = "/";
  environment = [];
  timeout = 60000000000;
}

unfoldable pub arg : VmCommand → String → VmCommand
arg self argument = record self { arguments = self.arguments ++ argument ∷ [] }

unfoldable pub in_directory : VmCommand → String → VmCommand
in_directory self directory = record self { current_directory = directory }

unfoldable pub with_environment : VmCommand → List (String × String) → VmCommand
with_environment self added = record self { environment = self.environment ++ added }

unfoldable pub with_timeout : VmCommand → ℕ → VmCommand
with_timeout self timeout = record self { timeout = timeout }

pub record VmCommandOutput : Type 0 where
  pub exit_code : ℕ
  pub stdout : List ℕ
  pub stderr : List ℕ

-- `u64::try_from(command_timeout.as_millis()).unwrap_or(u64::MAX)`
abbrev pub as_millis : ℕ → ℕ
as_millis timeout =
    let millis = timeout / 1000000 in if ltb millis (2 ^ 64) then millis else 2 ^ 64 - 1

-- `SHUTDOWN_TIMEOUT`
abbrev pub shutdown_limit : ℕ
shutdown_limit = 10000000000
