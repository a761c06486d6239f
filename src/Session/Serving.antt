-- ===== src/Session/Serving.antt =====
-- What the guest's end of the console makes of each call in crates/nanocodex-vm/src/session.rs.
use nanoeval.Prelude.Lines.{lines}
use nanoeval.Session.Framing.{IsAnswered, lines-end_line, IsWritten, IsEscaped}
use nanoeval.Session.{SessionRequest, freeform, function, response_id, end_line}
use nanoeval.Session.Guest.{serve_line, serve_request}
use nanoeval.Session.Host.{
  control_request, control_result, expect_contents, expect_execution, expect_output, expect_written,
  send_request,
}
use nanoeval.Session.Calls.{
  Call, Session, accept, call_command, call_read, call_tool, call_write, contents_read, executed,
  finished, guest_end, local_call, make, remote_call, written, Link, serve_lines,
}
use nanoeval.Prelude.{
  Result, [], ap, arith, err, false, map_ok, ok, refl, some, ℕ, ◌%◌, ◌++◌, ◌+◌, ◌>>=◌, ◌^◌, ◌∷◌,
  ◌≡◌, String,
}

pub pair_parts : {A B : Type 0} {p q : A × B} → p ≡ q → (p.0 ≡ q.0) × (p.1 ≡ q.1)
pair_parts e = (ap (λ p. p.0) e, ap (λ p. p.1) e)

module _ {T X G J E Y : Type 0} (link : Link T X G J E Y) where
  open link use {json, system, from_wire, broken_pipe}

  -- What the guest does for a call, what it answers and what the host makes of the answer.
  pub record IsServed (call : Call T) (id : ℕ) (guest : G) : Type 0 where
    pub same_id : response_id (serve_request system (make link call id) guest).0.0 ≡ id
    pub goes_on : (serve_request system (make link call id) guest).0.1 ≡ false
    pub same_guest :
        (serve_request system (make link call id) guest).1 ≡ (local_call link call guest).1
    pub same_result :
        accept link call (serve_request system (make link call id) guest).0.0
        ≡ (local_call link call guest).0

  pub call-IsServed : (call : Call T) (id : ℕ) (guest : G) → IsServed call id guest
  unfolding serve_request local_call response_id control_result
  call-IsServed (call_tool tool (function arguments) context) id guest = ground arith
  call-IsServed (call_tool tool (freeform arguments) context) id guest = ground arith
  call-IsServed (call_write path contents mode) id guest = ground arith
  call-IsServed (call_read path) id guest = ground arith
  call-IsServed (call_command command) id guest = ground arith

  pub serve_line-eq-ok :
      (asked : SessionRequest T) (guest : G) (line answer : String)
      → json.decode_request line ≡ ok asked
      → json.encode_response (serve_request system asked guest).0.0 ≡ ok answer
      → (serve_request system asked guest).0.1 ≡ false
      → serve_line system {E = E} json line guest
        ≡ (ok (answer, false), (serve_request system asked guest).1)
  unfolding serve_line
  serve_line-eq-ok asked guest line answer read wrote on =
      rw (serve_line, read) (rw wrote (rw on refl))

  lines-line : (line : String) → IsEscaped line → lines (end_line line "") ≡ line ∷ []
  unfolding lines
  lines-line line h = lines-end_line line "" h

  pub guest_end-served :
      (asked : SessionRequest T) (guest : G) (line answer : String)
      → IsEscaped line
      → IsEscaped answer
      → json.decode_request line ≡ ok asked
      → json.encode_response (serve_request system asked guest).0.0 ≡ ok answer
      → (serve_request system asked guest).0.1 ≡ false
      → (guest_end link) (end_line line "") (some guest)
        ≡ (ok (ok answer ∷ []), some (serve_request system asked guest).1)
  unfolding guest_end serve_lines
  guest_end-served asked guest line answer clear clear' read wrote on =
      let served = serve_line-eq-ok asked guest line answer read wrote on in
      let (first, second) = pair_parts served in
      rw (lines-line line clear, guest_end)
        (rw (first, serve_lines) (rw second (rw (lines-line answer clear') refl)))

  pub map_ok_bind :
      {A B C Err : Type 0} (f : B → C) (g : A → Result B Err) (r : Result A Err)
      → map_ok f (r >>= g) ≡ (r >>= λ a. map_ok f (g a))
  map_ok_bind f g (ok a) = refl
  map_ok_bind f g (err e) = refl

  -- A call is its request and what is made of the response.
  pub remote_call_lem :
      (call : Call T) (state : Session link)
      → remote_call link call state ≡ (
        (control_request json (guest_end link) (make link call) state).0 >>= accept link call,
        (control_request json (guest_end link) (make link call) state).1,
      )
  unfolding remote_call
  remote_call_lem (call_tool tool input context) state =
      ap
        (λ r. (
          r,
          (control_request json (guest_end link) (make link (call_tool tool input context))
              state).1,
        ))
        (map_ok_bind executed (expect_execution json (guest_end link) from_wire) _)
  remote_call_lem (call_write path contents mode) state =
      ap
        (λ r. (
          r,
          (control_request json (guest_end link) (make link (call_write path contents mode))
              state).1,
        ))
        (map_ok_bind (λ u. written) (expect_written json (guest_end link)) _)
  remote_call_lem (call_read path) state =
      ap (λ r. (r, (control_request json (guest_end link) (make link (call_read path)) state).1))
        (map_ok_bind contents_read (expect_contents json (guest_end link)) _)
  remote_call_lem (call_command command) state =
      ap
        (λ r.
          (r, (control_request json (guest_end link) (make link (call_command command)) state).1))
        (map_ok_bind finished (expect_output json (guest_end link) command.timeout) _)

  -- The request of a call and the guest's response to it each are written as one line that reads back.
  abbrev pub IsClear : Call T → ℕ → G → Type 0
  IsClear call id guest =
      IsWritten json (make link call id)
      × IsAnswered json (serve_request system (make link call id) guest).0.0

  -- What sending the request of a call does, and which response then waits to be read.
  pub record IsSent (call : Call T) (state : Session link) (guest : G) : Type 0 where
    pub answer : String
    pub sent : send_request json (guest_end link) (make link call) state ≡ (
      ok tt,
      record state {
        peer = some (local_call link call guest).1;
        output = state.output ++ ok answer ∷ [];
        next_id = (state.next_id + 1) % 2 ^ 64;
      },
    )
    pub decodes :
        json.decode_response answer
        ≡ ok (serve_request system (make link call state.next_id) guest).0.0

  pub send_request-IsSent :
      (call : Call T) (state : Session link) (guest : G)
      → state.peer ≡ some guest
      → IsClear call state.next_id guest
      → IsSent call state guest
  unfolding send_request
  send_request-IsSent call state guest running clear =
      let served = call-IsServed call state.next_id guest in
      let ((line, encoded, back, plain), (answer, wrote, read, plain')) = clear in
      let end : (guest_end link) (end_line line "") state.peer ≡ (
        ok (ok answer ∷ []),
        some (serve_request system (make link call state.next_id) guest).1,
      ) =
        rw running (
          guest_end-served (make link call state.next_id) guest line answer plain plain' back wrote
            served.goes_on) in
      record {
        answer = answer;
        sent =
            let (first, second) = pair_parts end in
            rw (send_request, encoded) (rw first (rw second (rw served.same_guest refl)));
        decodes = read;
      }
