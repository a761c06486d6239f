-- ===== src/Session/Responses.antt =====
-- How the host of crates/nanocodex-vm/src/session.rs finds the response to its request, past those
-- of requests that were given up.
use nanoeval.Session.{Json, SessionResponse, response_id}
use nanoeval.Session.Host.{read_response}
use nanoeval.Prelude.{
  ==_iff, All, Bool-cases, List, Result, Result-cases, [], arith, err, false, inl, inr, ltb, lt→ltb,
  ok, refl, ℕ, ◌++◌, ◌<◌, ◌==◌, ◌∷◌, ◌≡◌, String,
}

module _ {T X J P E : Type 0} (json : Json T X J)
    (send : String → P → Result (List (Result String E)) E × P) where
  -- A line with the response to a request before `id`.
  abbrev pub IsStale : ℕ → Result String E → Type 0
  IsStale id entry =
      (line : String) × (response : SessionResponse X) × (entry ≡ ok line)
      × (json.decode_response line ≡ ok response)
      × (response_id response < id)

  pub read_response-skips :
      (id : ℕ) (stale : List (Result String E)) (line : String) (response : SessionResponse X)
      (later : List (Result String E))
      → All (IsStale id) stale
      → json.decode_response line ≡ ok response
      → response_id response ≡ id
      → read_response json send id (stale ++ ok line ∷ later) ≡ (ok response, later)
  unfolding read_response
  read_response-skips id [] line response later old good same =
      rw (read_response, good) (rw ((==_iff (response_id response) id).1 same) refl)
  read_response-skips id (entry ∷ stale) line response later ((old, r, e, decoded, below), more)
        good same =
      let ih = read_response-skips id stale line response later more good same in
      let other_id : (response_id r == id) ≡ false = ground (arith, below) in
      rw (e, read_response, decoded) (rw (other_id, lt→ltb _ _ below) ih)

  -- Whatever comes back, a response that is returned is that to the request.
  pub read_response_id :
      (id : ℕ) (output : List (Result String E)) (response : SessionResponse X)
      (later : List (Result String E))
      → read_response json send id output ≡ (ok response, later)
      → response_id response ≡ id
  unfolding read_response
  read_response_id id [] response later h = absurd (cc)
  read_response_id id (err error ∷ output) response later h = absurd (cc)
  read_response_id id (ok line ∷ output) response later h =
      elim (Result-cases (json.decode_response line)) [
        | inr (error, bad) ↦ absurd (cc (rw (read_response, bad) at h))
        | inl (found, good) ↦
            let h' = rw (read_response, good) at h in
            elim (Bool-cases (response_id found == id)) [
              | inl same ↦
                  let e : found ≡ response = cc (rw same at h') in rw (← e) ((==_iff _ _).0 same)
              | inr differs ↦
                  let h'' = rw differs at h' in
                  elim (Bool-cases (ltb (response_id found) id)) [
                    | inl below ↦ read_response_id id output response later (rw below at h'')
                    | inr above ↦ absurd (cc (rw above at h''))
                  ]
            ]
      ]
