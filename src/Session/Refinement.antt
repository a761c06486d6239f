-- ===== src/Session/Refinement.antt =====
-- That the calls of crates/nanocodex-vm/src/session.rs give over the console what they give on the
-- guest itself.
use nanoeval.Session.Serving.{
  call-IsServed, pair_parts, remote_call_lem, send_request-IsSent, IsClear,
}
use nanoeval.Session.Guest.{serve_request}
use nanoeval.Session.Host.{control_request, send_request}
use nanoeval.Session.Responses.{IsStale, read_response-skips}
use nanoeval.Session.Calls.{
  Call, IsSynced, Session, Use, abandoned, guest_end, local_call, made, make, remote_call,
  run_local, run_remote, Link, call_of,
}
use nanoeval.Prelude.{
  All-append, All-map, List, [], arith, length, ok, refl, some, ◌%◌, ◌+◌, ◌<◌, ◌^◌, ◌∷◌, ◌≡◌, ℕ,
}

module _ {T X G J E Y : Type 0} (link : Link T X G J E Y) where
  open link use {json, system, from_wire, broken_pipe}

  -- The response to a request that is sent is found past the stale ones.
  control_request-eq-ok :
      (call : Call T) (state : Session link) (guest : G)
      → (IsSynced link) guest state
      → IsClear link call state.next_id guest
      → control_request json (guest_end link) (make link call) state ≡ (
        ok (serve_request system (make link call state.next_id) guest).0.0,
        record {
          peer = some (local_call link call guest).1;
          output = [];
          next_id = (state.next_id + 1) % 2 ^ 64;
        },
      )
  unfolding control_request
  control_request-eq-ok call state guest synced clear =
      let sending = send_request-IsSent link call state guest synced.running clear in
      let (first, second) = pair_parts sending.sent in
      let served = call-IsServed link call state.next_id guest in
      let found =
        read_response-skips json (guest_end link) state.next_id state.output sending.answer
          (serve_request system (make link call state.next_id) guest).0.0 [] synced.stale
          sending.decodes served.same_id in
      let (response, rest) = pair_parts found in
      rw (first, control_request) (rw second (rw response (rw rest refl)))

  remote_call-eq :
      (call : Call T) (state : Session link) (guest : G)
      → (IsSynced link) guest state
      → IsClear link call state.next_id guest
      → (remote_call link) call state ≡ (
        (local_call link call guest).0,
        record {
          peer = some (local_call link call guest).1;
          output = [];
          next_id = (state.next_id + 1) % 2 ^ 64;
        },
      )
  remote_call-eq call state guest synced clear =
      let served = call-IsServed link call state.next_id guest in
      let (first, second) = pair_parts (control_request-eq-ok call state guest synced clear) in
      rw (remote_call_lem link call state) (rw first (rw second (rw served.same_result refl)))

  -- A request that is given up leaves one more stale response.
  abandoned-IsSynced :
      (call : Call T) (state : Session link) (guest : G)
      → (IsSynced link) guest state
      → IsClear link call state.next_id guest
      → state.next_id + 1 < 2 ^ 64
      → (IsSynced link)
          (local_call link call guest).1
          (send_request json (guest_end link) (make link call) state).1
        × ((send_request json (guest_end link) (make link call) state).1.next_id
            ≡ state.next_id + 1)
  abandoned-IsSynced call state guest synced clear small =
      let sending = send_request-IsSent link call state guest synced.running clear in
      let served = call-IsServed link call state.next_id guest in
      let (first, second) = pair_parts sending.sent in
      let next : (state.next_id + 1) % 2 ^ 64 ≡ state.next_id + 1 = omega arith in
      rw (second, next)
        (
          record {
            running = refl;
            stale =
                All-append (IsStale json (guest_end link) (state.next_id + 1)) state.output _
                  (All-map
                    (λ entry (line, response, is, decoded, below).
                      (line, response, is, decoded, omega arith))
                    state.output synced.stale)
                  ((sending.answer, _, refl, sending.decodes, rw served.same_id (omega arith)), tt);
          },
          refl,
        )

  -- Each request and each response of these calls is written as one line that reads back, if the
  -- requests are numbered from `id` on and the calls are made on this guest.
  abbrev pub AreClear : List (Use T) → ℕ → G → Type 0
  AreClear [] id guest = Unit
  AreClear (first ∷ later) id guest =
      IsClear link (call_of first) id guest
      × AreClear later (id + 1) (local_call link (call_of first) guest).1

  -- Calls of tools, of commands and on files that go over the console to the guest's loop, some of
  -- them given up after their request was sent, return to the callers that wait what the same calls
  -- return on the guest itself, in order, and leave the guest in the same state; what is then left to
  -- read are responses to earlier requests. The guest runs, the host has no unread line but such
  -- responses, each request and each response of the run is written as a text without control
  -- characters that reads back as it was, and fewer than 2^64 requests are made.
  pub run_remote-refines :
      (uses : List (Use T)) (state : Session link) (guest : G)
      → (IsSynced link) guest state
      → AreClear uses state.next_id guest
      → state.next_id + length uses < 2 ^ 64
      → ((run_remote link uses state).0 ≡ (run_local link uses guest).0)
        × (IsSynced link) (run_local link uses guest).1 (run_remote link uses state).1
  unfolding run_remote run_local
  run_remote-refines [] state guest synced clear small = (refl, synced)
  run_remote-refines (made call ∷ later) state guest synced (clear, more) small =
      let next : (state.next_id + 1) % 2 ^ 64 ≡ state.next_id + 1 = omega arith in
      let (first, second) = pair_parts (remote_call-eq call state guest synced clear) in
      let (same, ends) =
        run_remote-refines later (remote_call link call state).1 (local_call link call guest).1
          (rw second (record { running = refl; stale = tt })) (rw (second, next) more)
          (rw (second, next) (omega arith)) in
      (cc, ends)
  run_remote-refines (abandoned call ∷ later) state guest synced (clear, more) small =
      let (kept, next) = abandoned-IsSynced call state guest synced clear (omega arith) in
      run_remote-refines later (send_request json (guest_end link) (make link call) state).1
        (local_call link call guest).1 kept (rw next more) (rw next (omega arith))
