-- ===== src/Evaluator/Batches.antt =====
-- `run_tasks` and the batch calls over it, of crates/nanoeval/src/evaluator.rs. The stream of
-- completions is the list of the indexed outcomes in the order in which the attempts finish.
use nanoeval.Prelude.Keyed.{sort_by_key}
use nanoeval.Prelude.{
  ℕ, List, Option, Result, [], err, flat_map, map, max, min, none, ok, some, suc, zero, ◌*◌, ◌++◌,
  ◌-◌, ◌^◌, ◌∷◌,
}

-- `enumerate()`, from `first` on
abbrev pub enumerate : {A : Type 0} → ℕ → List A → List (ℕ × A)
enumerate first [] = []
enumerate first (x ∷ xs) = (first, x) ∷ enumerate (suc first) xs

-- how many attempts the stream polls at a time
unfoldable pub scheduling_window : ℕ → ℕ → ℕ
scheduling_window tasks max_concurrency = max (min tasks (min (max_concurrency * 4) (2 ^ 64 - 1))) 1

module _ {A E : Type 0} where
  -- The `while let` loop: the results, and the first error, in the order of completion.
  unfoldable pub drain : List (ℕ × A) → Option E → List (ℕ × Result A E) → List (ℕ × A) × Option E
  drain results first_error [] = (results, first_error)
  drain results first_error ((index, ok result) ∷ completed) =
      drain (results ++ (index, result) ∷ []) first_error completed
  drain results none ((index, err error) ∷ completed) = drain results (some error) completed
  drain results (some first) ((index, err error) ∷ completed) = drain results (some first) completed

  settle : List (ℕ × A) × Option E → Result (List A) E
  settle (results, some error) = err error
  settle (results, none) = ok (map (λ entry. entry.1) (sort_by_key results))

  -- `run_tasks`, over the completions of its stream
  unfoldable pub run_tasks : List (ℕ × Result A E) → Result (List A) E
  unfolding drain settle sort_by_key
  run_tasks completed = settle (drain [] none completed)

-- `repeat_n`, and the inputs of `task_n` and `tasks_n`
abbrev pub repeat_n : {A : Type 0} → A → ℕ → List A
repeat_n a zero = []
repeat_n a (suc count) = a ∷ repeat_n a count

unfoldable pub tasks_n_inputs : {A : Type 0} → List A → ℕ → List A
tasks_n_inputs tasks count = flat_map (λ task. repeat_n task count) tasks
