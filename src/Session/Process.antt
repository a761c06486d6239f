-- ===== src/Session/Process.antt =====
-- How crates/nanocodex-vm/src/session.rs waits for a process in the guest; what the system does is a
-- value.
use nanoeval.Session.{ExitStatus}
use nanoeval.Prelude.{
  Bool, List, Option, Result, String, err, false, map_ok, none, ok, some, true, ℕ, ◌>>=◌, ◌>>◌,
}

-- `Errno` of a signal: there is no such process, or another.
pub data Errno : Type 0 where
  esrch : Errno
  errno : String → Errno

-- How a process that was started went: `in_time` is what waiting for it gave within the timeout, if
-- that came first.
pub record CommandRun : Type 0 where
  pub spawned : Result (Unit {0}) String
  pub process_group : Option ℕ
  pub stdout_piped : Bool
  pub stderr_piped : Bool
  pub in_time : Option (Result ExitStatus String)
  pub kill_group : Result (Unit {0}) Errno
  pub start_kill : Result (Unit {0}) String
  pub wait : Result ExitStatus String
  pub stdout : Result (List ℕ) String
  pub stderr : Result (List ℕ) String

-- `Output`
pub record CommandOutput : Type 0 where
  pub status : ExitStatus
  pub stdout : List ℕ
  pub stderr : List ℕ

abbrev pub ensure_piped : Bool → String → Result (Unit {0}) String
ensure_piped true message = ok tt
ensure_piped false message = err message

unfoldable pub kill : CommandRun → Result (Unit {0}) String
kill run = elim run.process_group [
  | some group ↦ elim run.kill_group [
    | ok done ↦ ok tt
    | err esrch ↦ ok tt
    | err (errno error) ↦ err error
  ]
  | none ↦ run.start_kill
]

-- the wait for the process, and what is done when it takes too long
unfoldable pub finish_in_time : CommandRun → Result (Option ExitStatus) String
unfolding kill
finish_in_time run = elim run.in_time [
  | some waited ↦ map_ok some waited
  | none ↦ kill run >> (run.wait >>= λ _. ok none)
]

unfoldable pub execute_command_to_output : CommandRun → Result (Option CommandOutput) String
unfolding finish_in_time
execute_command_to_output run = do
  run.spawned
  ensure_piped run.stdout_piped "guest command stdout was not piped"
  ensure_piped run.stderr_piped "guest command stderr was not piped"
  finished ← finish_in_time run
  stdout ← run.stdout
  stderr ← run.stderr
  ok (elim finished [
    | none ↦ none
    | some status ↦ some (record { status = status; stdout = stdout; stderr = stderr })
  ])
