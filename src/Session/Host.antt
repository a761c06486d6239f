-- ===== src/Session/Host.antt =====
-- `VmToolSession` of crates/nanocodex-vm/src/session.rs: the host's side of the console. What the
-- console makes of a text is a parameter: an error, or the lines that come back for it. Telemetry,
-- with the count of the bytes of a response, is left out.
use nanoeval.Session.Command.{VmCommand, VmCommandOutput, as_millis, shutdown_limit}
use nanoeval.Session.{
  ControlResponse, ExecuteRequest, ExitStatus, Json, SessionRequest, SessionResponse, ToolInput,
  VmToolSessionError, WireToolContext, closed, execute_request, execute_response, guest_failed,
  guest_timeout, io, json_error, protocol, read_file_request, read_file_response, response_id,
  shutdown_request, shutdown_response, shutdown_timeout, success, to_wire, tool_request,
  tool_response, vmm_exit, write_file_request, write_file_response, wrong_response_id, end_line,
}
use nanoeval.Prelude.{
  Bool, List, Option, Result, String, [], err, false, if◌then◌else◌, ltb, none, ok, some, true, ℕ,
  ◌%◌, ◌++◌, ◌+◌, ◌==◌, ◌>>=◌, ◌>>◌, ◌^◌, ◌∷◌,
}

-- The console's other end `peer`, the lines that came from it and are not read yet, and the counter.
pub record SessionState (P E : Type 0) : Type 0 where
  pub peer : P
  pub output : List (Result String E)
  pub next_id : ℕ

unfoldable pub control_result :
    {E J : Type 0} → ControlResponse → Result (Unit {0}) (VmToolSessionError E J)
control_result response = elim response.error [
  | none ↦ ok tt
  | some error ↦ err (guest_failed error)
]

module _ {T X J P E : Type 0} (json : Json T X J)
    (send : String → P → Result (List (Result String E)) E × P) where
  -- The loop over the lines that come back; the end of the lines is that of the console.
  unfoldable pub read_response :
      ℕ
      → List (Result String E)
      → Result (SessionResponse X) (VmToolSessionError E J) × List (Result String E)
  unfolding response_id
  read_response expected_id [] = (err closed, [])
  read_response expected_id (err error ∷ later) = (err (io error), later)
  read_response expected_id (ok line ∷ later) =
      let rest = read_response expected_id later in
      elim (json.decode_response line) [
        | err error ↦ (err (json_error error), later)
        | ok response ↦
            if response_id response == expected_id
            then (ok response, later)
            else if ltb (response_id response) expected_id
            then rest
            else (err (wrong_response_id expected_id (response_id response)), later)
      ]

  -- The part of a request that precedes the reading of its response: a caller that gives up while
  -- it waits has done this part only.
  unfoldable pub send_request :
      (ℕ → SessionRequest T)
      → SessionState P E
      → Result (Unit {0}) (VmToolSessionError E J) × SessionState P E
  send_request make_request state =
      let counted : SessionState P E = record state { next_id = (state.next_id + 1) % 2 ^ 64 } in
      elim (json.encode_request (make_request state.next_id)) [
        | err error ↦ (err (json_error error), counted)
        | ok encoded ↦
            let (sent, peer) = send (end_line encoded "") state.peer in
            elim sent [
              | err error ↦ (err (io error), record counted { peer = peer })
              | ok answer ↦ (ok tt, record counted { peer = peer; output = state.output ++ answer })
            ]
      ]

  unfoldable pub control_request :
      (ℕ → SessionRequest T)
      → SessionState P E
      → Result (SessionResponse X) (VmToolSessionError E J) × SessionState P E
  unfolding send_request
  control_request make_request state =
      let (sent, after) = send_request make_request state in
      elim sent [
        | err error ↦ (err error, after)
        | ok done ↦
            let (response, output) = read_response state.next_id after.output in
            (response, record after { output = output })
      ]

  abbrev pub expect_execution :
      {Y : Type 0} → (X → Result Y J) → SessionResponse X → Result Y (VmToolSessionError E J)
  expect_execution from_wire (tool_response response) = elim response.execution [
    | some execution ↦ elim response.error [
      | none ↦ elim (from_wire execution) [
        | ok result ↦ ok result
        | err error ↦ err (json_error error)
      ]
      | some error ↦ err (protocol "expected exactly one of execution or error")
    ]
    | none ↦ elim response.error [
      | some error ↦ err (guest_failed error)
      | none ↦ err (protocol "expected exactly one of execution or error")
    ]
  ]
  expect_execution from_wire other_kind = err (protocol "expected a tool response")

  abbrev pub tool_request_of : T → ToolInput → WireToolContext → ℕ → SessionRequest T
  tool_request_of tool input context id =
      tool_request (record { id = id; tool = tool; input = to_wire input; context = context })

  -- `request_inner`
  unfoldable pub request :
      {Y : Type 0}
      → (X → Result Y J)
      → T
      → ToolInput
      → WireToolContext
      → SessionState P E
      → Result Y (VmToolSessionError E J) × SessionState P E
  unfolding control_request
  request from_wire tool input context state =
      let (response, after) = control_request (tool_request_of tool input context) state in
      (response >>= expect_execution from_wire, after)

  abbrev pub expect_written : SessionResponse X → Result (Unit {0}) (VmToolSessionError E J)
  expect_written (write_file_response response) = control_result response
  expect_written other_kind = err (protocol "expected a write-file response")

  abbrev pub write_request_of : String → List ℕ → ℕ → ℕ → SessionRequest T
  write_request_of path contents mode id =
      write_file_request (record { id = id; path = path; contents = contents; mode = mode })

  unfoldable pub write_file :
      String
      → List ℕ
      → ℕ
      → SessionState P E
      → Result (Unit {0}) (VmToolSessionError E J) × SessionState P E
  unfolding control_request control_result
  write_file path contents mode state =
      let (response, after) = control_request (write_request_of path contents mode) state in
      (response >>= expect_written, after)

  abbrev pub expect_contents : SessionResponse X → Result (List ℕ) (VmToolSessionError E J)
  expect_contents (read_file_response response) = elim response.contents [
    | some contents ↦ elim response.error [
      | none ↦ ok contents
      | some error ↦ err (protocol "expected exactly one of contents or error")
    ]
    | none ↦ elim response.error [
      | some error ↦ err (guest_failed error)
      | none ↦ err (protocol "expected exactly one of contents or error")
    ]
  ]
  expect_contents other_kind = err (protocol "expected a read-file response")

  abbrev pub read_request_of : String → ℕ → SessionRequest T
  read_request_of path id = read_file_request (record { id = id; path = path })

  unfoldable pub read_file :
      String → SessionState P E → Result (List ℕ) (VmToolSessionError E J) × SessionState P E
  unfolding control_request
  read_file path state =
      let (response, after) = control_request (read_request_of path) state in
      (response >>= expect_contents, after)

  -- What is made of the fields of a response, in the order of the source's tuple.
  abbrev pub output_of :
      ℕ
      → Option ℕ
      → Option (List ℕ)
      → Option (List ℕ)
      → Option String
      → Bool
      → Result VmCommandOutput (VmToolSessionError E J)
  output_of timeout (some exit_code) (some stdout) (some stderr) none false =
      ok (record { exit_code = exit_code; stdout = stdout; stderr = stderr })
  output_of timeout none none none none true = err (guest_timeout timeout)
  output_of timeout none none none (some error) false = err (guest_failed error)
  output_of timeout exit_code stdout stderr error timed_out =
      err (protocol "invalid execute response fields")

  abbrev pub expect_output : ℕ → SessionResponse X → Result VmCommandOutput (VmToolSessionError E J)
  expect_output timeout (execute_response response) =
      output_of timeout response.exit_code response.stdout response.stderr response.error
        response.timed_out
  expect_output timeout other_kind = err (protocol "expected an execute response")

  abbrev pub wire_command : VmCommand → ℕ → ExecuteRequest
  wire_command command id = record {
    id = id;
    program = command.program;
    arguments = command.arguments;
    current_directory = command.current_directory;
    environment = command.environment;
    timeout_millis = as_millis command.timeout;
  }

  -- `command`
  unfoldable pub run_command :
      VmCommand
      → SessionState P E
      → Result VmCommandOutput (VmToolSessionError E J) × SessionState P E
  unfolding control_request
  run_command command state =
      let (response, after) =
        control_request (λ id. execute_request (wire_command command id)) state in
      (response >>= expect_output command.timeout, after)

  abbrev pub expect_shutdown : SessionResponse X → Result (Unit {0}) (VmToolSessionError E J)
  expect_shutdown (shutdown_response response) = control_result response
  expect_shutdown other_kind = err (protocol "expected a shutdown response")

  -- `child.wait()` under the timeout: `none` means that it took too long
  unfoldable pub check_exit :
      Option (Result ExitStatus E) → Result (Unit {0}) (VmToolSessionError E J)
  check_exit none = err (shutdown_timeout shutdown_limit)
  check_exit (some (err error)) = err (io error)
  check_exit (some (ok status)) = if success status then ok tt else err (vmm_exit status)

  unfoldable pub shutdown :
      Option (Result ExitStatus E)
      → SessionState P E
      → Result (Unit {0}) (VmToolSessionError E J) × SessionState P E
  unfolding control_request control_result check_exit
  shutdown waited state =
      let (response, after) = control_request (λ id. shutdown_request (record { id = id })) state in
      ((response >>= expect_shutdown) >> check_exit waited, after)
