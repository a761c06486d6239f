-- ===== src/Session/Tests.antt =====
-- A guest with a small file system, and calls of which one is given up.
use nanoeval.Prelude.Lines.{lines}
use nanoeval.Session.{
  ExitStatus, Json, SessionRequest, SessionResponse, guest_failed, shutdown_request,
  execute_request, execute_response, read_file_request, read_file_response, shutdown_response,
  tool_request, tool_response, write_file_request, write_file_response,
}
use nanoeval.Session.Process.{CommandRun, esrch, execute_command_to_output}
use nanoeval.Session.Guest.{GuestSystem, put_file, serve_request}
use nanoeval.Session.Command.{new_command}
use nanoeval.Session.Host.{SessionState, read_response}
use nanoeval.Session.Calls.{
  IsSynced, Use, abandoned, call_command, call_read, call_write, contents_read, finished, made,
  run_local, run_remote, guest_end, Link, local_call,
}
use nanoeval.Session.Refinement.{run_remote-refines, AreClear}
use nanoeval.Session.Framing.{lines-write_requests, write_requests}
use nanoeval.Prelude.{
  List, Option, Result, String, [], arith, err, if◌then◌else◌, map, none, ok, refl, some, str_eq,
  true, ℕ, ◌∷◌, ◌≡◌, false, ◌==◌,
}
use nanoeval.Prelude.Dict.{Dict, insert, lookup}

abbrev Files : Type 0
Files = Dict (List ℕ)

-- The requests and the responses of one session, by their texts.
abbrev write_of_a : SessionRequest String
write_of_a = write_file_request (record { id = 0; path = "/a"; contents = 1 ∷ 2 ∷ []; mode = 420 })

abbrev read_of : ℕ → String → SessionRequest String
read_of id path = read_file_request (record { id = id; path = path })

abbrev hi_request : SessionRequest String
hi_request = execute_request (record {
  id = 3;
  program = "/bin/hi";
  arguments = [];
  current_directory = "/";
  environment = [];
  timeout_millis = 60000;
})

abbrev encode_question : SessionRequest String → Result String String
encode_question (tool_request question) = err "another request"
encode_question (write_file_request question) = ok "write 0 /a 1 2"
encode_question (read_file_request question) =
    if question.id == 1 then ok "read 1 /a" else ok "read 2 /b"
encode_question (execute_request question) = ok "execute 3 /bin/hi"
encode_question (shutdown_request question) = err "another request"

abbrev decode_question : String → Result (SessionRequest String) String
decode_question line =
    if str_eq line "write 0 /a 1 2"
    then ok write_of_a
    else if str_eq line "read 1 /a"
    then ok (read_of 1 "/a")
    else if str_eq line "read 2 /b"
    then ok (read_of 2 "/b")
    else if str_eq line "execute 3 /bin/hi"
    then ok hi_request
    else err "another request"

abbrev wrote_a : SessionResponse String
wrote_a = write_file_response (record { id = 0; error = none })

abbrev read_a : SessionResponse String
read_a = read_file_response (record { id = 1; contents = some (1 ∷ 2 ∷ []); error = none })

abbrev missing_b : SessionResponse String
missing_b =
    read_file_response
      (record { id = 2; contents = none; error = some "No such file or directory (os error 2)" })

abbrev said_hi : SessionResponse String
said_hi = execute_response (record {
  id = 3;
  exit_code = some 0;
  stdout = some (104 ∷ 105 ∷ []);
  stderr = some [];
  error = none;
  timed_out = false;
})

abbrev encode_answer : SessionResponse String → Result String String
encode_answer (tool_response answer) = err "another response"
encode_answer (write_file_response answer) = ok "wrote 0"
encode_answer (read_file_response answer) =
    if answer.id == 1 then ok "contents 1 1 2" else ok "missing 2"
encode_answer (execute_response answer) = ok "exit 3 0"
encode_answer (shutdown_response answer) = err "another response"

abbrev decode_answer : String → Result (SessionResponse String) String
decode_answer line =
    if str_eq line "wrote 0"
    then ok wrote_a
    else if str_eq line "contents 1 1 2"
    then ok read_a
    else if str_eq line "missing 2"
    then ok missing_b
    else if str_eq line "exit 3 0"
    then ok said_hi
    else err "another response"

abbrev plain_json : Json String String String
plain_json = record {
  encode_request = encode_question;
  decode_request = decode_question;
  encode_response = encode_answer;
  decode_response = decode_answer;
}

abbrev succeeded : ExitStatus
succeeded = record { code = some 0; text = "exit status: 0" }

abbrev quiet_run : CommandRun
quiet_run = record {
  spawned = ok tt;
  process_group = some 7;
  stdout_piped = true;
  stderr_piped = true;
  in_time = some (ok succeeded);
  kill_group = err esrch;
  start_kill = ok tt;
  wait = ok succeeded;
  stdout = ok (104 ∷ 105 ∷ []);
  stderr = ok [];
}

abbrev found : Option (List ℕ) → Result (List ℕ) String
found none = err "No such file or directory (os error 2)"
found (some contents) = ok contents

abbrev small_system : GuestSystem String String Files
small_system = record {
  execute_tool = λ tool input context files. (ok "done", files);
  parent = λ path. some "/";
  create_dir_all = λ path files. (ok tt, files);
  write = λ path contents files. (ok tt, insert path contents files);
  set_permissions = λ path mode files. (ok tt, files);
  read = λ path files. found (lookup path files);
  sync = λ files. (ok succeeded, files);
  start = λ process files. (quiet_run, files);
}

abbrev accept_tool : String → Result String String
accept_tool execution = ok execution

abbrev small_link : Link String String Files String String String
small_link = record {
  json = plain_json;
  system = small_system;
  from_wire = accept_tool;
  broken_pipe = "Broken pipe (os error 32)";
}

abbrev new_session : SessionState (Option Files) String
new_session = record { peer = some []; output = []; next_id = 0 }

abbrev uses : List (Use String)
uses =
    abandoned (call_write "/a" (1 ∷ 2 ∷ []) 420)
    ∷ made (call_read "/a")
    ∷ made (call_read "/b")
    ∷ made (call_command (new_command "/bin/hi"))
    ∷ []

-- The response to the write, which nobody waits for, is passed over.
session_runs :
    (run_remote small_link uses new_session).0
    ≡ ok (contents_read (1 ∷ 2 ∷ []))
      ∷ err (guest_failed "No such file or directory (os error 2)")
      ∷ ok (finished (record { exit_code = 0; stdout = 104 ∷ 105 ∷ []; stderr = [] }))
      ∷ []
unfolding run_remote lookup insert guest_end serve_request read_response put_file
    execute_command_to_output lines
session_runs = refl

uses-AreClear : AreClear small_link uses 0 []
unfolding serve_request put_file execute_command_to_output insert lookup local_call new_command
uses-AreClear = (
  (("write 0 /a 1 2", refl, refl, omega arith), ("wrote 0", refl, refl, omega arith)),
  (
    (("read 1 /a", refl, refl, omega arith), ("contents 1 1 2", refl, refl, omega arith)),
    (
      (("read 2 /b", refl, refl, omega arith), ("missing 2", refl, refl, omega arith)),
      ((("execute 3 /bin/hi", refl, refl, omega arith), ("exit 3 0", refl, refl, omega arith)), tt),
    ),
  ),
)

run_remote-refines_example :
    ((run_remote small_link uses new_session).0 ≡ (run_local small_link uses []).0)
    × IsSynced small_link
        (run_local small_link uses []).1
        (run_remote small_link uses new_session).1
run_remote-refines_example =
    run_remote-refines small_link uses new_session [] (record { running = refl; stale = tt })
      uses-AreClear (omega arith)

abbrev stop : SessionRequest String
stop = shutdown_request (record { id = 9 })

-- the text of this request, as the tests of the protocol have it
abbrev stop_line : String
stop_line = "{\"kind\":\"shutdown\",\"payload\":{\"id\":9}}"

abbrev stop_json : Json String String String
stop_json = record {
  encode_request = λ question. ok stop_line;
  decode_request = λ line. if str_eq line stop_line then ok stop else err "another request";
  encode_response = λ answer. err "no response";
  decode_response = λ line. err "no response";
}

lines-write_requests_example :
    (text : String) × (write_requests stop_json (stop ∷ stop ∷ []) ≡ ok text)
    × (map stop_json.decode_request (lines text) ≡ ok stop ∷ ok stop ∷ [])
lines-write_requests_example =
    lines-write_requests stop_json (stop ∷ stop ∷ [])
      ((stop_line, refl, refl, omega arith), ((stop_line, refl, refl, omega arith), tt))
