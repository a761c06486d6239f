-- ===== src/Admission/Tests.antt =====
-- The scenario of the program's own admission test, and the theorems on its states.
use nanoeval.Admission.Invariant.{Reach-IsCounted, IsCounted}
use nanoeval.Admission.Waiting.{
  next, asleep, System, Reach, admit, arm, arrive, drop, here, notify, suspend,
}
use nanoeval.Admission.Progress.{IsReady, no_deadlock}
use nanoeval.Admission.{
  idle, release, AdmissionController, try_acquire, AdmissionState, AdmissionPermit,
}
use nanoeval.Prelude.{ℕ, All, [], arith, none, refl, some, ◌∷◌, ◌≡◌, ◌≢◌}

abbrev two_in_four : AdmissionController
two_in_four = record { max_concurrency = 2; max_memory_mb = some 4 }

abbrev three : AdmissionState
three = record { running = 1; memory_mb = 3 }

abbrev permit_of : ℕ → AdmissionPermit
permit_of n = record { memory_mb = n }

-- After a permit of 3 MB: 2 MB more do not fit, 1 MB does, and then both slots are taken.
admission_runs :
    (try_acquire two_in_four 3 idle ≡ some (three, permit_of 3))
    × (try_acquire two_in_four 2 three ≡ none)
    × (try_acquire two_in_four 1 three ≡ some (record { running = 2; memory_mb = 4 }, permit_of 1))
    × (try_acquire two_in_four 1 (record { running = 2; memory_mb = 4 }) ≡ none)
    × (try_acquire two_in_four 10 idle ≡ some (record { running = 1; memory_mb = 4 }, permit_of 4))
unfolding try_acquire
admission_runs = (refl, refl, refl, refl, refl)

abbrev admitted : System
admitted = record { state = three; held = permit_of 3 ∷ []; waiters = []; pending = 0; epoch = 0 }

-- One caller is admitted, a second one sleeps.
abbrev crowded : System
crowded = record admitted { waiters = asleep 2 0 ∷ [] }

admitted-Reach : Reach two_in_four admitted
admitted-Reach =
    next (next (next here (arrive 3 refl)) (arm [] [] 3 refl refl))
      (admit [] [] 3 0 three (permit_of 3) refl admission_runs.0 refl)

crowded-Reach : Reach two_in_four crowded
crowded-Reach =
    next (next (next admitted-Reach (arrive 2 refl)) (arm [] [] 2 refl refl))
      (suspend [] [] 2 0 refl admission_runs.1 refl)

-- The first permit is dropped, and its drop has notified.
abbrev vacated : System
vacated = record {
  state = release (permit_of 3) three;
  held = [];
  waiters = asleep 2 0 ∷ [];
  pending = 0;
  epoch = 1;
}

vacated-Reach : Reach two_in_four vacated
vacated-Reach =
    next (next crowded-Reach (drop [] [] (permit_of 3) refl refl)) (notify (omega arith) refl)

Reach-IsCounted_example : IsCounted two_in_four three (permit_of 3 ∷ [])
Reach-IsCounted_example = Reach-IsCounted two_in_four admitted-Reach

no_deadlock_example :
    All (IsReady 1) (asleep 2 0 ∷ [])
    × ((requested : ℕ) → try_acquire two_in_four requested (release (permit_of 3) three) ≢ none)
no_deadlock_example = no_deadlock two_in_four (omega arith) (omega arith) vacated-Reach refl refl
