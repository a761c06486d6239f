-- ===== src/Evaluator/Tests.antt =====
-- Batches of two and of three attempts that finish out of order.
use mathlib.Core.List.{Permᴰ}
use nanoeval.Evaluator.Batches.{run_tasks, scheduling_window, tasks_n_inputs}
use nanoeval.Evaluator.Ordering.{run_tasks-eq-ok, run_tasks-eq-err}
use nanoeval.Prelude.{ℕ, List, Result, String, [], err, ok, refl, ◌∷◌, ◌≡◌}

abbrev finished_late_first : List (ℕ × Result String String)
finished_late_first = (1, ok "second") ∷ (0, ok "first") ∷ []

batches_run :
    (run_tasks finished_late_first ≡ ok ("first" ∷ "second" ∷ []))
    × (scheduling_window 10 2 ≡ 8)
    × (scheduling_window 0 2 ≡ 1)
    × (tasks_n_inputs {A = String} ("a" ∷ "b" ∷ []) 2 ≡ "a" ∷ "a" ∷ "b" ∷ "b" ∷ [])
unfolding run_tasks scheduling_window tasks_n_inputs
batches_run = (refl, refl, refl, refl)

run_tasks-eq-ok_example : run_tasks finished_late_first ≡ ok ("first" ∷ "second" ∷ [])
run_tasks-eq-ok_example =
    run_tasks-eq-ok ("first" ∷ "second" ∷ []) finished_late_first (Permᴰ.swap refl refl)

run_tasks-eq-err_example :
    run_tasks {A = String} {E = String} ((2, ok "third") ∷ (0, err "lost") ∷ (1, err "later") ∷ [])
    ≡ err "lost"
run_tasks-eq-err_example =
    run_tasks-eq-err ((2, ok "third") ∷ []) ((1, err "later") ∷ []) 0 "lost" (tt, tt)
