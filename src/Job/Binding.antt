-- ===== src/Job/Binding.antt =====
-- `bind_run` and `verify_run` of crates/nanoeval/src/job.rs: one job directory, one finite run.
pub mod Laws
use nanoeval.Sweep.Identity.{IsAgentId, AgentId}
use nanoeval.Prelude.Paths.{FilePath}
use nanoeval.Errors.{json, io, IoError, EvalError, run_conflict}
use nanoeval.Sweep.{manifest_eq, RunManifest}
use nanoeval.Prelude.{
  All, Option, Result, String, err, if◌then◌else◌, none, ok, some, true, ◌<◌, ◌>>=◌, ◌≡◌,
}

-- The JSON of a run manifest, as `serde_json` writes and reads it. A manifest that can be written
-- is read back from its text with a newline behind it, if it has a trial and valid agents.
pub record ManifestJson : Type 1 where
  pub Bytes : Type 0
  pub newline : Bytes → Bytes
  pub encode : RunManifest → Result Bytes String
  pub decode : Bytes → Result RunManifest String
  pub round_trip :
      (run : RunManifest) (text : Bytes)
      → 0 < run.trials
      → All (λ (id : AgentId). IsAgentId id.text) run.agents
      → encode run ≡ ok text
      → decode (newline text) ≡ ok run

-- a manifest of a sweep that was built
abbrev pub IsRun : RunManifest → Type 0
IsRun run = (0 < run.trials) × All (λ (id : AgentId). IsAgentId id.text) run.agents

-- What the system calls do: whether the temporary file can be created, written, synced and,
-- but for a file that is there already, moved to `run.json`; whether `run.json` can be read; and
-- what another process puts there between the test for the file and `persist_noclobber`.
pub record Disk (Bytes : Type 0) : Type 0 where
  pub written : Result (Unit {0}) IoError
  pub readable : Result (Unit {0}) IoError
  pub raced : Option Bytes

module _ (N : Type 0) (j : ManifestJson) where
  open j use {Bytes, newline, encode, decode, round_trip}

  abbrev pub lift_io : {A : Type 0} → Result A IoError → Result A (EvalError N)
  lift_io (ok a) = ok a
  lift_io (err e) = err (io e)

  abbrev lift_json : {A : Type 0} → Result A String → Result A (EvalError N)
  lift_json (ok a) = ok a
  lift_json (err e) = err (json e)

  unfoldable pub verify_run :
      FilePath → Disk Bytes → RunManifest → Bytes → Result (Unit {0}) (EvalError N)
  verify_run path disk expected text = do
    _ ← lift_io disk.readable
    retained ← lift_json (decode text)
    if manifest_eq retained expected then ok tt else err (run_conflict path)

  -- `persist_noclobber`: the file that another process has put there stays
  persist :
      FilePath
      → Disk Bytes
      → RunManifest
      → Bytes
      → Option Bytes
      → Option Bytes × Result (Unit {0}) (EvalError N)
  unfolding verify_run
  persist path disk run encoded none = (some (newline encoded), ok tt)
  persist path disk run encoded (some other) = (some other, verify_run path disk run other)

  create_run :
      FilePath
      → Disk Bytes
      → RunManifest
      → Bytes
      → Result (Unit {0}) IoError
      → Option Bytes × Result (Unit {0}) (EvalError N)
  unfolding persist
  create_run path disk run encoded (err error) = (disk.raced, err (io error))
  create_run path disk run encoded (ok _) = persist path disk run encoded disk.raced

  bind_encoded :
      FilePath
      → Disk Bytes
      → RunManifest
      → Option Bytes
      → Result Bytes String
      → Option Bytes × Result (Unit {0}) (EvalError N)
  unfolding create_run
  bind_encoded path disk run file (err error) = (file, err (json error))
  bind_encoded path disk run none (ok encoded) = create_run path disk run encoded disk.written
  bind_encoded path disk run (some text) (ok encoded) = (some text, verify_run path disk run text)

  -- `bind_run`: the contents of `run.json` before and after, and the result
  unfoldable pub bind_run :
      FilePath
      → Disk Bytes
      → RunManifest
      → Option Bytes
      → Option Bytes × Result (Unit {0}) (EvalError N)
  unfolding bind_encoded
  bind_run path disk run file = bind_encoded path disk run file (encode run)

  -- The file holds a manifest of the run.
  pub record Holds (run : RunManifest) (file : Option Bytes) : Type 0 where
    pub text : Bytes
    pub retained : RunManifest
    pub present : file ≡ some text
    pub decoded : decode text ≡ ok retained
    pub same_run : manifest_eq retained run ≡ true
