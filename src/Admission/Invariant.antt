-- ===== src/Admission/Invariant.antt =====
-- The counters of `AdmissionController` (crates/nanoeval/src/evaluator.rs) in every reached state.
use nanoeval.Admission.Waiting.{
  Reach, Step, System, admit, arm, arrive, cancel, drop, here, next, notify, suspend, wake,
}
use nanoeval.Admission.{AdmissionState, try_acquire, release, AdmissionController, AdmissionPermit}
use nanoeval.Prelude.{
  ℕ, List, Option, [], arith, length, length-middle, none, refl, some, ◌++◌, ◌+◌, ◌-◌, ◌∷◌, ◌≡◌,
  ◌≤◌,
}

abbrev pub total : List AdmissionPermit → ℕ
total [] = 0
total (permit ∷ permits) = permit.memory_mb + total permits

total-middle :
    (front : List AdmissionPermit) (permit : AdmissionPermit) (back : List AdmissionPermit)
    → total (front ++ permit ∷ back) ≡ permit.memory_mb + total (front ++ back)
total-middle [] permit back = refl
total-middle (first ∷ front) permit back = omega (arith, total-middle front permit back)

-- With no ceiling nothing is charged.
abbrev pub IsWithin : Option ℕ → ℕ → Type 0
IsWithin none memory_mb = memory_mb ≡ 0
IsWithin (some limit) memory_mb = memory_mb ≤ limit

pub record IsCounted (c : AdmissionController) (state : AdmissionState)
    (held : List AdmissionPermit) : Type 0 where
  pub running : state.running ≡ length held
  pub memory : state.memory_mb ≡ total held
  pub concurrency : state.running ≤ c.max_concurrency
  pub ceiling : IsWithin c.max_memory_mb state.memory_mb

try_acquire-IsWithin :
    (c : AdmissionController) (max_memory_mb : Option ℕ) (requested : ℕ)
    (state state' : AdmissionState) (permit : AdmissionPermit)
    → c.max_memory_mb ≡ max_memory_mb
    → IsWithin max_memory_mb state.memory_mb
    → try_acquire c requested state ≡ some (state', permit)
    → IsWithin max_memory_mb state'.memory_mb
unfolding try_acquire
try_acquire-IsWithin c none requested state state' permit e h p = ground arith
try_acquire-IsWithin c (some limit) requested state state' permit e h p = ground arith

try_acquire-IsCounted :
    (c : AdmissionController) (requested : ℕ) (state state' : AdmissionState)
    (permit : AdmissionPermit) (held : List AdmissionPermit)
    → IsCounted c state held
    → try_acquire c requested state ≡ some (state', permit)
    → IsCounted c state' (permit ∷ held)
unfolding try_acquire
try_acquire-IsCounted c requested state state' permit held h p = record {
  running = ground arith;
  memory = ground arith;
  concurrency = ground arith;
  ceiling = try_acquire-IsWithin c c.max_memory_mb requested state state' permit refl h.ceiling p;
}

IsWithin-sub :
    (max_memory_mb : Option ℕ) (m n : ℕ) → IsWithin max_memory_mb m → IsWithin max_memory_mb (m - n)
IsWithin-sub none m n h = omega arith
IsWithin-sub (some limit) m n h = omega arith

release-IsCounted :
    (c : AdmissionController) (state : AdmissionState) (front back : List AdmissionPermit)
    (permit : AdmissionPermit)
    → IsCounted c state (front ++ permit ∷ back)
    → IsCounted c (release permit state) (front ++ back)
unfolding release
release-IsCounted c state front back permit h = record {
  running = omega (arith, h.running, length-middle front permit back);
  memory = omega (arith, h.memory, total-middle front permit back);
  concurrency = omega (arith, h.concurrency);
  ceiling = IsWithin-sub c.max_memory_mb state.memory_mb permit.memory_mb h.ceiling;
}

Step-IsCounted :
    (c : AdmissionController) {s u : System}
    → Step c s u
    → IsCounted c s.state s.held
    → IsCounted c u.state u.held
Step-IsCounted c (arrive _ e) h = rw e h
Step-IsCounted c (arm _ _ _ _ e) h = rw e h
Step-IsCounted c {s} (admit _ _ requested _ state permit _ p e) h =
    rw e (try_acquire-IsCounted c requested s.state state permit s.held h p)
Step-IsCounted c (suspend _ _ _ _ _ _ e) h = rw e h
Step-IsCounted c (wake _ _ _ _ _ _ e) h = rw e h
Step-IsCounted c (cancel _ _ _ _ e) h = rw e h
Step-IsCounted c {s} (drop front back permit held e) h =
    rw e (release-IsCounted c s.state front back permit (rw held at h))
Step-IsCounted c (notify _ e) h = rw e h

IsWithin-zero : (max_memory_mb : Option ℕ) → IsWithin max_memory_mb 0
IsWithin-zero none = refl
IsWithin-zero (some limit) = omega arith

-- Whatever the callers do, in any order: the controller's counters are the number of permits held
-- and the sum of their charges, at most `max_concurrency` attempts run, and their charges together
-- stay within the memory ceiling.
pub Reach-IsCounted :
    (c : AdmissionController) {s : System} → Reach c s → IsCounted c s.state s.held
Reach-IsCounted c here = record {
  running = refl;
  memory = refl;
  concurrency = omega arith;
  ceiling = IsWithin-zero c.max_memory_mb;
}
Reach-IsCounted c (next r step) = Step-IsCounted c step (Reach-IsCounted c r)
