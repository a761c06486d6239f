-- ===== src/Session/Loop.antt =====
-- That the guest's end of the console, line by line, is the loop of `serve_guest` in
-- crates/nanocodex-vm/src/session.rs.
use nanoeval.Session.Guest.{serve_guest, serve_line}
use nanoeval.Session.Calls.{Link, answer_lines, serve_lines}
use nanoeval.Prelude.{
  List, Result, Result-cases, [], ap, false, inl, inr, map, ok, refl, sym, true, ◌++◌, ◌∷◌, ◌≡◌,
  String,
}
use mathlib.Core.List.{append-nil}

module _ {T X G J E Y : Type 0} (link : Link T X G J E Y) where
  open link use {json, system}

  pub answers_of : List String → List (Result String E)
  answers_of [] = []
  answers_of (encoded ∷ later) = answer_lines link encoded ++ answers_of later

  -- What comes back for these lines are the lines that the loop writes for them.
  pub serve_lines-answers_of :
      (lines : List String) (guest : G)
      → (serve_lines link lines guest).0
        ≡ answers_of (serve_guest system {E = E} json (map ok lines) guest).0.1
  unfolding serve_guest serve_lines answers_of
  serve_lines-answers_of [] guest = refl
  serve_lines-answers_of (line ∷ later) guest =
      let after = (serve_line system {E = E} json line guest).1 in
      elim (Result-cases (serve_line system {E = E} json line guest).0) [
        | inr (error, bad) ↦ rw (bad, serve_guest, serve_lines) refl
        | inl ((encoded, true), good) ↦
            rw (good, serve_guest, serve_lines) (sym (append-nil (answer_lines link encoded)))
        | inl ((encoded, false), good) ↦
            rw (good, serve_guest, serve_lines)
              (ap (λ rest. answer_lines link encoded ++ rest) (serve_lines-answers_of later after))
      ]
