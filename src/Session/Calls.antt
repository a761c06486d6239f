-- ===== src/Session/Calls.antt =====
-- The sessions of crates/nanocodex-vm/src/session.rs from end to end: the host's calls over a console
-- whose other end is the guest's loop, and the same calls made on the guest itself.
use nanoeval.Prelude.Lines.{lines}
use nanoeval.Session.{
  Json, SessionRequest, SessionResponse, ToolInput, VmToolSessionError, WireToolContext,
  execute_request, guest_failed, guest_timeout, json_error, end_line,
}
use nanoeval.Session.Process.{CommandOutput, execute_command_to_output}
use nanoeval.Session.Guest.{GuestProcess, GuestSystem, put_file, serve_line}
use nanoeval.Session.Command.{VmCommand, VmCommandOutput, as_millis}
use nanoeval.Session.Host.{
  SessionState, expect_contents, expect_execution, expect_output, expect_written, read_file,
  read_request_of, request, run_command, send_request, shutdown, tool_request_of, wire_command,
  write_file, write_request_of,
}
use nanoeval.Session.Responses.{IsStale}
use nanoeval.Prelude.{
  All, List, Option, Result, String, [], err, if◌then◌else◌, map_ok, none, ok, some, ℕ, ◌∷◌, ◌≡◌,
  map, ◌++◌,
}

-- A call of the host; `Y` is a tool's execution as the host has it.
pub data Call (T : Type 0) : Type 0 where
  call_tool : T → ToolInput → WireToolContext → Call T
  call_write : String → List ℕ → ℕ → Call T
  call_read : String → Call T
  call_command : VmCommand → Call T

pub data Outcome (Y : Type 0) : Type 0 where
  executed : Y → Outcome Y
  written : Outcome Y
  contents_read : List ℕ → Outcome Y
  finished : VmCommandOutput → Outcome Y

-- A caller waits for the result, or gives up after its request has been sent.
pub data Use (T : Type 0) : Type 0 where
  made abandoned : Call T → Use T

abbrev pub call_of : {T : Type 0} → Use T → Call T
call_of (made call) = call
call_of (abandoned call) = call

-- What stands between the host and the guest: the JSON of the console, the guest's system, the
-- execution of a tool as the host reads it (`ToolExecution::from_wire`), and the error of a write
-- after the guest's loop has ended.
pub record Link (T X G J E Y : Type 0) : Type 0 where
  pub json : Json T X J
  pub system : GuestSystem T X G
  pub from_wire : X → Result Y J
  pub broken_pipe : E

module _ {T X G J E Y : Type 0} (link : Link T X G J E Y) where
  open link use {json, system, from_wire, broken_pipe}

  -- The lines of an answer, which the guest writes with a line feed behind it.
  abbrev pub answer_lines : String → List (Result String E)
  answer_lines encoded = map ok (lines (end_line encoded ""))

  -- What the guest's loop writes for these lines, and the guest unless its loop has ended.
  unfoldable pub serve_lines : List String → G → List (Result String E) × Option G
  unfolding serve_line
  serve_lines [] guest = ([], some guest)
  serve_lines (line ∷ later) guest =
      let (served, after) = serve_line system {E = E} json line guest in
      let (answers, final) = serve_lines later after in
      elim served [
        | err error ↦ ([], none)
        | ok (encoded, shutdown) ↦
            if shutdown
            then (answer_lines encoded, none)
            else (answer_lines encoded ++ answers, final)
      ]

  -- The guest's end of the console, which reads a text that is written to it line by line.
  unfoldable pub guest_end : String → Option G → Result (List (Result String E)) E × Option G
  unfolding serve_lines
  guest_end text none = (err broken_pipe, none)
  guest_end text (some guest) =
      let (answers, after) = serve_lines (lines text) guest in (ok answers, after)

  abbrev pub Session : Type 0
  Session = SessionState (Option G) E

  abbrev pub make : Call T → ℕ → SessionRequest T
  make (call_tool tool input context) = tool_request_of json guest_end tool input context
  make (call_write path contents mode) = write_request_of json guest_end path contents mode
  make (call_read path) = read_request_of json guest_end path
  make (call_command command) = λ id. execute_request (wire_command json guest_end command id)

  abbrev pub accept : Call T → SessionResponse X → Result (Outcome Y) (VmToolSessionError E J)
  accept (call_tool tool input context) response =
      map_ok executed (expect_execution json guest_end from_wire response)
  accept (call_write path contents mode) response =
      map_ok (λ u. written) (expect_written json guest_end response)
  accept (call_read path) response = map_ok contents_read (expect_contents json guest_end response)
  accept (call_command command) response =
      map_ok finished (expect_output json guest_end command.timeout response)

  -- The call over the console.
  unfoldable pub remote_call :
      Call T → Session → Result (Outcome Y) (VmToolSessionError E J) × Session
  unfolding request write_file read_file run_command
  remote_call (call_tool tool input context) state =
      let (result, after) = request json guest_end from_wire tool input context state in
      (map_ok executed result, after)
  remote_call (call_write path contents mode) state =
      let (result, after) = write_file json guest_end path contents mode state in
      (map_ok (λ u. written) result, after)
  remote_call (call_read path) state =
      let (result, after) = read_file json guest_end path state in
      (map_ok contents_read result, after)
  remote_call (call_command command) state =
      let (result, after) = run_command json guest_end command state in
      (map_ok finished result, after)

  abbrev pub of_guest : {A : Type 0} → Result A String → Result A (VmToolSessionError E J)
  of_guest (ok a) = ok a
  of_guest (err error) = err (guest_failed error)

  abbrev pub of_process :
      ℕ → Result (Option CommandOutput) String → Result (Outcome Y) (VmToolSessionError E J)
  of_process timeout (err error) = err (guest_failed error)
  of_process timeout (ok none) = err (guest_timeout timeout)
  of_process timeout (ok (some output)) = ok (
      finished (record {
        exit_code = elim output.status.code [ some n ↦ n | none ↦ 1 ];
        stdout = output.stdout;
        stderr = output.stderr;
      }))

  abbrev pub of_tool : Result X String → Result (Outcome Y) (VmToolSessionError E J)
  of_tool (err error) = err (guest_failed error)
  of_tool (ok execution) = elim (from_wire execution) [
    | ok result ↦ ok (executed result)
    | err error ↦ err (json_error error)
  ]

  abbrev pub guest_process : VmCommand → GuestProcess
  guest_process command = record {
    program = command.program;
    arguments = command.arguments;
    current_directory = command.current_directory;
    environment = command.environment;
    timeout_millis = as_millis command.timeout;
  }

  -- The call on the guest itself.
  unfoldable pub local_call : Call T → G → Result (Outcome Y) (VmToolSessionError E J) × G
  local_call (call_tool tool input context) guest =
      let (result, after) = system.execute_tool tool input context guest in (of_tool result, after)
  local_call (call_write path contents mode) guest =
      let (result, after) = put_file system path contents mode guest in
      (map_ok (λ u. written) (of_guest result), after)
  local_call (call_read path) guest =
      (map_ok contents_read (of_guest (system.read path guest)), guest)
  local_call (call_command command) guest =
      let (run, after) = system.start (guest_process command) guest in
      (of_process command.timeout (execute_command_to_output run), after)

  -- The results that callers have waited for, in the order of the requests.
  unfoldable pub run_remote :
      List (Use T) → Session → List (Result (Outcome Y) (VmToolSessionError E J)) × Session
  unfolding remote_call
  run_remote [] state = ([], state)
  run_remote (made call ∷ later) state =
      let (result, after) = remote_call call state in
      let (results, final) = run_remote later after in (result ∷ results, final)
  run_remote (abandoned call ∷ later) state =
      run_remote later (send_request json guest_end (make call) state).1

  unfoldable pub run_local :
      List (Use T) → G → List (Result (Outcome Y) (VmToolSessionError E J)) × G
  unfolding local_call
  run_local [] guest = ([], guest)
  run_local (made call ∷ later) guest =
      let (result, after) = local_call call guest in
      let (results, final) = run_local later after in (result ∷ results, final)
  run_local (abandoned call ∷ later) guest = run_local later (local_call call guest).1

  -- The other end is this guest, and what is left to read are responses to earlier requests.
  pub record IsSynced (guest : G) (state : Session) : Type 0 where
    pub running : state.peer ≡ some guest
    pub stale : All (IsStale json guest_end state.next_id) state.output
