-- ===== src/Session/Framing.antt =====
-- The lines of the console of crates/nanocodex-vm/src/session.rs: each request is written with a line
-- feed after it, and the guest reads line by line.
use nanoeval.Session.{Json, SessionRequest, SessionResponse, end_line}
use nanoeval.Prelude.{
  All, List, Result, String, [], arith, code, false, map, ok, refl, ◌==◌, ◌>>=◌, ◌∷◌, ◌≡◌, ◌≤◌,
}
use nanoeval.Prelude.Lines.{lines}
use nanoeval.Prelude.Order.{codes}

-- A text without control characters. JSON escapes them in a string, but the arguments of a function
-- are JSON of its caller, which may hold line feeds.
abbrev pub IsEscaped : String → Type 0
IsEscaped line = All (λ n. 32 ≤ n) (codes line)

pub lines-end_line :
    (line later : String) → IsEscaped line → lines (end_line line later) ≡ line ∷ lines later
unfolding lines
lines-end_line String.[] later h = refl
lines-end_line (String.◌∷◌ c line) later (h, hs) =
    let no_feed : (code c == 10) ≡ false = ground (arith, h) in
    let no_return : (code c == 13) ≡ false = ground (arith, h) in
    rw (lines, no_feed) (rw (no_return) (rw (lines-end_line line later hs) refl))

module _ {T X J : Type 0} (json : Json T X J) where
  -- What the host writes for these requests.
  unfoldable pub write_requests : List (SessionRequest T) → Result String J
  write_requests [] = ok ""
  write_requests (request ∷ requests) = do
    encoded ← json.encode_request request
    later ← write_requests requests
    ok (end_line encoded later)

  -- The request is written as a line without control characters, and reads back as it was.
  abbrev pub IsWritten : SessionRequest T → Type 0
  IsWritten request =
      (line : String) × (json.encode_request request ≡ ok line)
      × (json.decode_request line ≡ ok request)
      × IsEscaped line

  -- The response is written as a line without control characters, and reads back as it was.
  abbrev pub IsAnswered : SessionResponse X → Type 0
  IsAnswered response =
      (line : String) × (json.encode_response response ≡ ok line)
      × (json.decode_response line ≡ ok response)
      × IsEscaped line

  -- The guest reads the requests that the host has written.
  pub lines-write_requests :
      (requests : List (SessionRequest T))
      → All IsWritten requests
      → (text : String) × (write_requests requests ≡ ok text)
        × (map json.decode_request (lines text) ≡ map ok requests)
  unfolding write_requests lines
  lines-write_requests [] h = ("", refl, refl)
  lines-write_requests (request ∷ requests) ((line, wrote, back, escaped), hs) =
      let (text, written, read) = lines-write_requests requests hs in
      (end_line line text, rw wrote (rw written refl), rw (lines-end_line line text escaped) (cc))
