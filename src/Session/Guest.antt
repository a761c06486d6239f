-- ===== src/Session/Guest.antt =====
-- `serve_guest` of crates/nanocodex-vm/src/session.rs: how the guest answers a request. What the
-- tools, the file system and the processes of the guest do is a parameter, over its state `G`; an
-- error of theirs is the text that `to_string` gives.
use nanoeval.Session.Process.{CommandRun, execute_command_to_output}
use Prim.Native.String.{◌++◌}
use nanoeval.Session.{
  ControlResponse, ExecuteRequest, ExecuteResponse, ExitStatus, Json, ReadFileRequest,
  ReadFileResponse, SessionRequest, SessionResponse, ShutdownRequest, ToolInput, VmToolSessionError,
  WireToolContext, WriteFileRequest, execute_request, execute_response, io, json_error, of_wire,
  read_file_request, read_file_response, shutdown_request, shutdown_response, success, tool_request,
  tool_response, write_file_request, write_file_response, tool_completed, tool_failed,
}
use nanoeval.Prelude.{
  Bool, List, Option, Result, String, [], err, false, if◌then◌else◌, is_present, none, not, ok,
  some, true, ℕ, ◌∷◌,
}

-- The `Command` that is built from a request, with the timeout of the wait for it.
pub record GuestProcess : Type 0 where
  pub program : String
  pub arguments : List String
  pub current_directory : String
  pub environment : List (String × String)
  pub timeout_millis : ℕ

abbrev pub process_of : ExecuteRequest → GuestProcess
process_of request = record {
  program = request.program;
  arguments = request.arguments;
  current_directory = request.current_directory;
  environment = request.environment;
  timeout_millis = request.timeout_millis;
}

-- What the guest's tools and its operating system do.
pub record GuestSystem (T X G : Type 0) : Type 0 where
  pub execute_tool : T → ToolInput → WireToolContext → G → Result X String × G
  pub parent : String → Option String
  pub create_dir_all : String → G → Result (Unit {0}) String × G
  pub write : String → List ℕ → G → Result (Unit {0}) String × G
  pub set_permissions : String → ℕ → G → Result (Unit {0}) String × G
  pub read : String → G → Result (List ℕ) String
  pub sync : G → Result ExitStatus String × G
  pub start : GuestProcess → G → CommandRun × G

-- An operation on the guest after one that succeeds.
abbrev pub and_next :
    {G : Type 0}
    → Result (Unit {0}) String × G
    → (G → Result (Unit {0}) String × G)
    → Result (Unit {0}) String × G
and_next (ok done, guest) next = next guest
and_next (err error, guest) next = (err error, guest)

-- `.err().map(|error| error.to_string())`
abbrev pub error_of : {A : Type 0} → Result A String → Option String
error_of (ok done) = none
error_of (err error) = some error

module _ {T X G : Type 0} (system : GuestSystem T X G) where
  open system use {execute_tool, parent, create_dir_all, write, set_permissions, read, sync, start}

  -- the chain in `write_guest_file`
  unfoldable pub put_file : String → List ℕ → ℕ → G → Result (Unit {0}) String × G
  put_file path contents mode guest = elim (parent path) [
    | none ↦ (err "file path has no parent", guest)
    | some directory ↦
        and_next (create_dir_all directory guest)
          (λ created. and_next (write path contents created) (set_permissions path mode))
  ]

  unfoldable pub write_guest_file : WriteFileRequest → G → ControlResponse × G
  write_guest_file request guest =
      let (result, after) = put_file request.path request.contents request.mode guest in
      (record { id = request.id; error = error_of result }, after)

  unfoldable pub read_guest_file : ReadFileRequest → G → ReadFileResponse
  read_guest_file request guest = elim (read request.path guest) [
    | ok contents ↦ record { id = request.id; contents = some contents; error = none }
    | err error ↦ record { id = request.id; contents = none; error = some error }
  ]

  unfoldable pub execute_guest_command : ExecuteRequest → G → ExecuteResponse × G
  execute_guest_command request guest =
      let (run, after) = start (process_of request) guest in
      (
        elim (execute_command_to_output run) [
          | ok (some output) ↦ record {
            id = request.id;
            exit_code = some (elim output.status.code [ some n ↦ n | none ↦ 1 ]);
            stdout = some output.stdout;
            stderr = some output.stderr;
            error = none;
            timed_out = false;
          }
          | ok none ↦ record {
            id = request.id;
            exit_code = none;
            stdout = none;
            stderr = none;
            error = none;
            timed_out = true;
          }
          | err error ↦ record {
            id = request.id;
            exit_code = none;
            stdout = none;
            stderr = none;
            error = some error;
            timed_out = false;
          }
        ],
        after,
      )

  unfoldable pub sync_guest_filesystems : ShutdownRequest → G → ControlResponse × G
  sync_guest_filesystems request guest =
      let (result, after) = sync guest in
      (
        record {
          id = request.id;
          error = elim result [
            | ok status ↦ if success status then none else some ("sync exited with " ++ status.text)
            | err error ↦ some error
          ];
        },
        after,
      )

  -- The response to a request, and whether the guest then shuts down.
  unfoldable pub serve_request : SessionRequest T → G → (SessionResponse X × Bool) × G
  unfolding write_guest_file read_guest_file execute_guest_command sync_guest_filesystems
  serve_request (tool_request request) guest =
      let (result, after) =
        execute_tool request.tool (of_wire request.input) request.context guest in
      (
        (
          tool_response (elim result [
            | ok execution ↦ tool_completed request.id execution
            | err error ↦ tool_failed request.id error
          ]),
          false,
        ),
        after,
      )
  serve_request (write_file_request request) guest =
      let (response, after) = write_guest_file request guest in
      ((write_file_response response, false), after)
  serve_request (read_file_request request) guest =
      ((read_file_response (read_guest_file request guest), false), guest)
  serve_request (execute_request request) guest =
      let (response, after) = execute_guest_command request guest in
      ((execute_response response, false), after)
  serve_request (shutdown_request request) guest =
      let (response, after) = sync_guest_filesystems request guest in
      ((shutdown_response response, not (is_present response.error)), after)

  module _ {J E : Type 0} (json : Json T X J) where
    -- One round of the loop: the line that is written, and whether the loop ends after it.
    unfoldable pub serve_line : String → G → Result (String × Bool) (VmToolSessionError E J) × G
    serve_line line guest = elim (json.decode_request line) [
      | err error ↦ (err (json_error error), guest)
      | ok request ↦
          let ((response, shutdown), after) = serve_request request guest in
          (
            elim (json.encode_response response) [
              | err error ↦ err (json_error error)
              | ok encoded ↦ ok (encoded, shutdown)
            ],
            after,
          )
    ]

    -- `serve_guest` over the lines of its input, with the lines that it writes.
    unfoldable pub serve_guest :
        List (Result String E) → G → (Result (Unit {0}) (VmToolSessionError E J) × List String) × G
    serve_guest [] guest = ((ok tt, []), guest)
    serve_guest (err error ∷ later) guest = ((err (io error), []), guest)
    serve_guest (ok line ∷ later) guest =
        let (served, after) = serve_line line guest in
        elim served [
          | err error ↦ ((err error, []), after)
          | ok (encoded, true) ↦ ((ok tt, encoded ∷ []), after)
          | ok (encoded, false) ↦
              let ((result, written), final) = serve_guest later after in
              ((result, encoded ∷ written), final)
        ]
