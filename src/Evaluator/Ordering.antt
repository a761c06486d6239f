-- ===== src/Evaluator/Ordering.antt =====
-- The order of the results of `run_tasks` of crates/nanoeval/src/evaluator.rs, and its error.
use nanoeval.Prelude.Keyed.{sort_by_key_of_Permᴰ, sort_by_key, key, Permᴰ-All}
use nanoeval.Prelude.Distinct.{IsNew, IsDistinct}
use nanoeval.Evaluator.Batches.{drain, run_tasks, enumerate}
use nanoeval.Prelude.{
  ℕ, List, [], arith, refl, sym, ◌∙◌, ◌∷◌, ◌≡◌, Option, Result, err, map, none, ok, some, subst,
  suc, ◌++◌, All, ◌<◌, ap,
}
use mathlib.Core.List.{append_assoc, append-nil, Permᴰ}
use mathlib.Core.List.Permᴰ

abbrev or_else : {E : Type 0} → Option E → Option E → Option E
or_else none later = later
or_else (some first) later = some first

-- The attempt did not fail.
abbrev pub IsOk : {A E : Type 0} → ℕ × Result A E → Type 0
IsOk (i, ok result) = Unit
IsOk (i, err error) = ⊥

module _ {A E : Type 0} where
  abbrev result_of : ℕ × Result A E → List (ℕ × A)
  result_of (i, ok result) = (i, result) ∷ []
  result_of (i, err error) = []

  abbrev results_of : List (ℕ × Result A E) → List (ℕ × A)
  results_of [] = []
  results_of (c ∷ completed) = result_of c ++ results_of completed

  abbrev first_error_of : List (ℕ × Result A E) → Option E
  first_error_of [] = none
  first_error_of ((i, ok result) ∷ completed) = first_error_of completed
  first_error_of ((i, err error) ∷ completed) = some error

  drain_lem :
      (results : List (ℕ × A)) (first_error : Option E) (completed : List (ℕ × Result A E))
      → drain results first_error completed
        ≡ (results ++ results_of completed, or_else first_error (first_error_of completed))
  unfolding drain
  drain_lem results none [] = rw append-nil
  drain_lem results (some first) [] = rw append-nil
  drain_lem results none ((i, ok result) ∷ completed) =
      simp (drain_lem (results ++ (i, result) ∷ []) none completed, append_assoc)
  drain_lem results (some first) ((i, ok result) ∷ completed) =
      simp (drain_lem (results ++ (i, result) ∷ []) (some first) completed, append_assoc)
  drain_lem results none ((i, err error) ∷ completed) = drain_lem results (some error) completed
  drain_lem results (some first) ((i, err error) ∷ completed) =
      drain_lem results (some first) completed

  first_error_of-append :
      (before after : List (ℕ × Result A E)) (i : ℕ) (error : E)
      → All IsOk before
      → first_error_of (before ++ (i, err error) ∷ after) ≡ some error
  first_error_of-append [] after i error h = refl
  first_error_of-append ((j, ok result) ∷ before) after i error h =
      first_error_of-append before after i error h.1
  first_error_of-append ((j, err other) ∷ before) after i error h = absurd h.0

  -- A batch with a failed attempt fails with the error of the attempt that failed first, whatever
  -- finished before it, and whatever finishes or fails after it.
  pub run_tasks-eq-err :
      (before after : List (ℕ × Result A E)) (i : ℕ) (error : E)
      → All IsOk before
      → run_tasks (before ++ (i, err error) ∷ after) ≡ err error
  unfolding run_tasks
  run_tasks-eq-err before after i error h =
      rw (drain_lem [] none (before ++ (i, err error) ∷ after))
        (rw (first_error_of-append before after i error h))

  first_error_of-IsOk :
      (completed : List (ℕ × Result A E)) → All IsOk completed → first_error_of completed ≡ none
  first_error_of-IsOk [] h = refl
  first_error_of-IsOk ((i, ok result) ∷ completed) h = first_error_of-IsOk completed h.1
  first_error_of-IsOk ((i, err error) ∷ completed) h = absurd h.0

  result_of-swap :
      (c d : ℕ × Result A E) (rest : List (ℕ × A))
      → Permᴰ (result_of c ++ (result_of d ++ rest)) (result_of d ++ (result_of c ++ rest))
  result_of-swap (i, ok r) (j, ok s) rest = Permᴰ.swap refl refl
  result_of-swap (i, ok r) (j, err e) rest = Permᴰ.refl _
  result_of-swap (i, err e) (j, ok s) rest = Permᴰ.refl _
  result_of-swap (i, err e) (j, err f) rest = Permᴰ.refl _

  results_of-Permᴰ :
      {xs ys : List (ℕ × Result A E)} → Permᴰ xs ys → Permᴰ (results_of xs) (results_of ys)
  results_of-Permᴰ Permᴰ.nil = Permᴰ.nil
  results_of-Permᴰ (Permᴰ.cons {a} {l₁} {l₂} e p) =
      subst (λ b. Permᴰ (result_of a ++ results_of l₁) (result_of b ++ results_of l₂)) e
        (Permᴰ.append_left (result_of a) (results_of-Permᴰ p))
  results_of-Permᴰ (Permᴰ.swap {a} {b} {a'} {b'} {l} e f) =
      subst (λ z. Permᴰ (results_of (a ∷ b ∷ l)) (result_of z ++ (result_of b' ++ results_of l))) f
        (subst (λ z. Permᴰ (results_of (a ∷ b ∷ l)) (result_of b ++ (result_of z ++ results_of l)))
          e (result_of-swap a b (results_of l)))
  results_of-Permᴰ (Permᴰ.trans p q) = Permᴰ.trans (results_of-Permᴰ p) (results_of-Permᴰ q)

-- The completions of attempts that all succeed, in the order of their indices.
abbrev pub succeeded : {A E : Type 0} → ℕ → List A → List (ℕ × Result A E)
succeeded first values = enumerate first (map ok values)

module _ {A : Type 0} (E : Type 0) where
  succeeded-IsOk : (first : ℕ) (values : List A) → All IsOk (succeeded {E = E} first values)
  succeeded-IsOk first [] = tt
  succeeded-IsOk first (value ∷ values) = (tt, succeeded-IsOk (suc first) values)

  results_of-succeeded :
      (first : ℕ) (values : List A)
      → results_of (succeeded {E = E} first values) ≡ enumerate first values
  results_of-succeeded first [] = refl
  results_of-succeeded first (value ∷ values) = rw (results_of-succeeded (suc first) values)

module _ {A : Type 0} where
  enumerate-IsNew :
      (z : ℕ × A) (first : ℕ) (values : List A) → z.0 < first → IsNew key z (enumerate first values)
  enumerate-IsNew z first [] h = tt
  enumerate-IsNew z first (value ∷ values) h =
      (omega arith, enumerate-IsNew z (suc first) values (omega arith))

  enumerate-IsDistinct : (first : ℕ) (values : List A) → IsDistinct key (enumerate first values)
  enumerate-IsDistinct first [] = tt
  enumerate-IsDistinct first (value ∷ values) = (
    enumerate-IsNew (first, value) (suc first) values (omega arith),
    enumerate-IsDistinct (suc first) values,
  )

  sort_by_key-enumerate :
      (first : ℕ) (values : List A) → sort_by_key (enumerate first values) ≡ enumerate first values
  unfolding sort_by_key
  sort_by_key-enumerate first [] = refl
  sort_by_key-enumerate first (value ∷ []) = refl
  sort_by_key-enumerate first (value ∷ next ∷ values) =
      rw (sort_by_key-enumerate (suc first) (next ∷ values)) (ground arith)

  map-enumerate :
      (first : ℕ) (values : List A) → map (λ entry. entry.1) (enumerate first values) ≡ values
  map-enumerate first [] = refl
  map-enumerate first (value ∷ values) = rw (map-enumerate (suc first) values)

-- When every attempt of a batch succeeds, the batch returns their results in the order of its
-- tasks, in whatever order the attempts finish.
pub run_tasks-eq-ok :
    {A E : Type 0} (values : List A) (completed : List (ℕ × Result A E))
    → Permᴰ (succeeded 0 values) completed
    → run_tasks completed ≡ ok values
unfolding run_tasks
run_tasks-eq-ok {A} {E} values completed p =
    let all_ok = Permᴰ-All IsOk p (succeeded-IsOk E 0 values) in
    let no_error = first_error_of-IsOk completed all_ok in
    let same = results_of-succeeded E 0 values in
    let distinct : IsDistinct key (results_of (succeeded {E = E} 0 values)) =
      rw same (enumerate-IsDistinct 0 values) in
    let sorted : sort_by_key (results_of completed) ≡ enumerate 0 values =
      sym (sort_by_key_of_Permᴰ (results_of-Permᴰ p) distinct)
      ∙ ap sort_by_key same
      ∙ sort_by_key-enumerate 0 values in
    rw (drain_lem [] none completed) (rw no_error (rw sorted (ap ok (map-enumerate 0 values))))
