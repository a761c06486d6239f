-- ===== src/Session.antt =====
-- The protocol between a virtual machine's tools and their host, of
-- crates/nanocodex-vm/src/protocol.rs. `T` is the type of the standard tools and `X` that of an
-- execution on the wire, both of another package; a byte is a number.
pub mod Serving
pub mod Process
pub mod Command
pub mod Guest
pub mod Host
mod Framing
mod Responses
pub mod Calls
mod Loop
mod Refinement
mod Tests
use nanoeval.Prelude.{Bool, List, Option, Result, String, false, none, some, ℕ, ◌==◌}

-- `ToolInput`, and the arguments of a function as their JSON
pub data ToolInput : Type 0 where
  function freeform : String → ToolInput

pub data WireToolInput : Type 0 where
  function_arguments freeform_input : String → WireToolInput

abbrev pub to_wire : ToolInput → WireToolInput
to_wire (function arguments) = function_arguments arguments
to_wire (freeform input) = freeform_input input

abbrev pub of_wire : WireToolInput → ToolInput
of_wire (function_arguments arguments) = function arguments
of_wire (freeform_input input) = freeform input

pub record WireToolContext : Type 0 where
  pub model : String
  pub session_id : String
  pub call_id : String
  pub output_token_budget : ℕ

pub record ToolRequest (T : Type 0) : Type 0 where
  pub id : ℕ
  pub tool : T
  pub input : WireToolInput
  pub context : WireToolContext

pub record WriteFileRequest : Type 0 where
  pub id : ℕ
  pub path : String
  pub contents : List ℕ
  pub mode : ℕ

pub record ReadFileRequest : Type 0 where
  pub id : ℕ
  pub path : String

pub record ExecuteRequest : Type 0 where
  pub id : ℕ
  pub program : String
  pub arguments : List String
  pub current_directory : String
  pub environment : List (String × String)
  pub timeout_millis : ℕ

pub record ShutdownRequest : Type 0 where
  pub id : ℕ

pub data SessionRequest (T : Type 0) : Type 0 where
  tool_request : ToolRequest T → SessionRequest T
  write_file_request : WriteFileRequest → SessionRequest T
  read_file_request : ReadFileRequest → SessionRequest T
  execute_request : ExecuteRequest → SessionRequest T
  shutdown_request : ShutdownRequest → SessionRequest T

pub record ToolResponse (X : Type 0) : Type 0 where
  pub id : ℕ
  pub execution : Option X
  pub error : Option String

pub record ControlResponse : Type 0 where
  pub id : ℕ
  pub error : Option String

pub record ReadFileResponse : Type 0 where
  pub id : ℕ
  pub contents : Option (List ℕ)
  pub error : Option String

pub record ExecuteResponse : Type 0 where
  pub id : ℕ
  pub exit_code : Option ℕ
  pub stdout : Option (List ℕ)
  pub stderr : Option (List ℕ)
  pub error : Option String
  pub timed_out : Bool

pub data SessionResponse (X : Type 0) : Type 0 where
  tool_response : ToolResponse X → SessionResponse X
  write_file_response : ControlResponse → SessionResponse X
  read_file_response : ReadFileResponse → SessionResponse X
  execute_response : ExecuteResponse → SessionResponse X
  shutdown_response : ControlResponse → SessionResponse X

-- `SessionResponse::id`
unfoldable pub response_id : {X : Type 0} → SessionResponse X → ℕ
response_id (tool_response response) = response.id
response_id (write_file_response response) = response.id
response_id (read_file_response response) = response.id
response_id (execute_response response) = response.id
response_id (shutdown_response response) = response.id

-- `ToolResponse::completed` and `ToolResponse::failed`
abbrev pub tool_completed : {X : Type 0} → ℕ → X → ToolResponse X
tool_completed id execution = record { id = id; execution = some execution; error = none }

abbrev pub tool_failed : {X : Type 0} → ℕ → String → ToolResponse X
tool_failed id error = record { id = id; execution = none; error = some error }

-- The status of a process: its code, which a signal leaves out, and how it is printed.
pub record ExitStatus : Type 0 where
  pub code : Option ℕ
  pub text : String

-- `success`
abbrev pub success : ExitStatus → Bool
success status = elim status.code [ none ↦ false | some n ↦ n == 0 ]

-- `serde_json` on the texts of the console; `J` is its error.
pub record Json (T X J : Type 0) : Type 0 where
  pub encode_request : SessionRequest T → Result String J
  pub decode_request : String → Result (SessionRequest T) J
  pub encode_response : SessionResponse X → Result String J
  pub decode_response : String → Result (SessionResponse X) J

-- `write_all` of a text and of a line feed, before what is written later
abbrev pub end_line : String → String → String
end_line String.[] later = String.◌∷◌ "\n" later
end_line (String.◌∷◌ c line) later = String.◌∷◌ c (end_line line later)

pub data VmToolSessionError (E J : Type 0) : Type 0 where
  io : E → VmToolSessionError E J
  json_error : J → VmToolSessionError E J
  closed : VmToolSessionError E J
  wrong_response_id : ℕ → ℕ → VmToolSessionError E J
  guest_failed : String → VmToolSessionError E J
  guest_timeout : ℕ → VmToolSessionError E J
  protocol : String → VmToolSessionError E J
  shutdown_timeout : ℕ → VmToolSessionError E J
  vmm_exit : ExitStatus → VmToolSessionError E J
