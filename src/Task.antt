-- ===== src/Task.antt =====
-- crates/nanoeval/src/task.rs: one benchmark task, as the rest of the program sees it.
-- A `Duration` is a number of nanoseconds.
pub mod Load
use nanoeval.Prelude.{Bool, List, String, ℕ}
use nanoeval.Prelude.Dict.{Dict}
use nanoeval.Prelude.Paths.{FilePath}

pub data VerifierEnvironmentMode : Type 0 where
  same separate : VerifierEnvironmentMode

pub record VerifierCollect : Type 0 where
  pub command : String

pub record Verifier : Type 0 where
  pub script : FilePath
  pub timeout : ℕ
  pub environment : Dict String
  pub environment_mode : VerifierEnvironmentMode
  pub collect : List VerifierCollect

pub record Resources : Type 0 where
  pub cpus : ℕ
  pub memory_mb : ℕ
  pub storage_mb : ℕ
  pub gpus : ℕ

pub data NetworkPolicy : Type 0 where
  public disabled : NetworkPolicy

pub record Task : Type 0 where
  pub root : FilePath
  pub name : String
  pub description : String
  pub prompt : String
  pub image : String
  pub agent_timeout : ℕ
  pub verifier : Verifier
  pub artifacts : List FilePath
  pub resources : Resources
  pub network : NetworkPolicy
  pub environment : Dict String
  pub requires_compose : Bool
