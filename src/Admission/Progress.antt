-- ===== src/Admission/Progress.antt =====
-- When `acquire` of crates/nanoeval/src/evaluator.rs refuses, and which callers may sleep.
use nanoeval.Admission.Invariant.{total, Reach-IsCounted}
use nanoeval.Admission.Waiting.{
  Step, Reach, Waiter, System, admit, arm, armed, arrive, asleep, cancel, drop, entering, here,
  next, notify, suspend, wake,
}
use nanoeval.Admission.{
  AdmissionState, AdmissionController, try_acquire, memory_available, AdmissionPermit, charge,
  u64_limit,
}
use nanoeval.Prelude.{
  ℕ, All, All-append, All-map, All-middle, List, arith, false, inl, inr, none, some, ◌++◌, ◌+◌, ◌↔◌,
  ◌∷◌, ◌≡◌, ◌≤◌, ◌⊎◌, ==_iff, Bool-cases, Option, [], ap, length, refl, true, ◌<◌, ◌==◌, ◌∙◌, ◌≢◌,
}

-- A round refuses exactly when every slot is taken or the charge does not fit.
pub try_acquire-eq-none_iff :
    (c : AdmissionController) (requested : ℕ) (state : AdmissionState)
    → (try_acquire c requested state ≡ none) ↔ (
        (c.max_concurrency ≤ state.running)
        ⊎ (memory_available c state (charge c requested) ≡ false))
unfolding try_acquire
try_acquire-eq-none_iff c requested state = ground arith

try_acquire-grows :
    (c : AdmissionController) (requested : ℕ) (state state' : AdmissionState)
    (permit : AdmissionPermit)
    → try_acquire c requested state ≡ some (state', permit)
    → (state.running ≤ state'.running) × (state.memory_mb ≤ state'.memory_mb)
unfolding try_acquire
try_acquire-grows c requested state state' permit p = (ground arith, ground arith)

memory_available_mono :
    (c : AdmissionController) (state state' : AdmissionState) (memory_mb : ℕ)
    → state.memory_mb ≤ state'.memory_mb
    → memory_available c state memory_mb ≡ false
    → memory_available c state' memory_mb ≡ false
unfolding memory_available
memory_available_mono c state state' memory_mb h p = ground arith

-- An admission makes no room for anybody else.
try_acquire-refuses :
    (c : AdmissionController) (requested other : ℕ) (state state' : AdmissionState)
    (permit : AdmissionPermit)
    → try_acquire c other state ≡ some (state', permit)
    → try_acquire c requested state ≡ none
    → try_acquire c requested state' ≡ none
try_acquire-refuses c requested other state state' permit p refused =
    let (running, memory) = try_acquire-grows c other state state' permit p in
    elim ((try_acquire-eq-none_iff c requested state).0 refused) [
      | inl full ↦ (try_acquire-eq-none_iff c requested state').1 (inl (omega arith))
      | inr over ↦
          (try_acquire-eq-none_iff c requested state').1
            (inr (memory_available_mono c state state' (charge c requested) memory over))
    ]

-- A sleeper whose notification has not come, with no drop about to notify, would be refused.
abbrev pub IsSound : AdmissionController → AdmissionState → ℕ → ℕ → Waiter → Type 0
IsSound c state pending epoch (entering requested) = Unit
IsSound c state pending epoch (armed requested seen) = seen ≤ epoch
IsSound c state pending epoch (asleep requested seen) =
    (seen ≤ epoch) × (seen ≡ epoch → pending ≡ 0 → try_acquire c requested state ≡ none)

abbrev pub AreSound : AdmissionController → System → Type 0
AreSound c s = All (IsSound c s.state s.pending s.epoch) s.waiters

IsSound-admit :
    (c : AdmissionController) (other : ℕ) (state state' : AdmissionState) (permit : AdmissionPermit)
    (pending epoch : ℕ)
    → try_acquire c other state ≡ some (state', permit)
    → (w : Waiter) → IsSound c state pending epoch w
    → IsSound c state' pending epoch w
IsSound-admit c other state state' permit pending epoch p (entering requested) h = h
IsSound-admit c other state state' permit pending epoch p (armed requested seen) h = h
IsSound-admit c other state state' permit pending epoch p (asleep requested seen) h =
    (h.0, λ now quiet. try_acquire-refuses c requested other state state' permit p (h.1 now quiet))

IsSound-drop :
    (c : AdmissionController) (state state' : AdmissionState) (pending epoch : ℕ) (w : Waiter)
    → IsSound c state pending epoch w
    → IsSound c state' (pending + 1) epoch w
IsSound-drop c state state' pending epoch (entering requested) h = h
IsSound-drop c state state' pending epoch (armed requested seen) h = h
IsSound-drop c state state' pending epoch (asleep requested seen) h =
    (h.0, λ now quiet. absurd (omega arith))

IsSound-notify :
    (c : AdmissionController) (state : AdmissionState) (pending pending' epoch : ℕ) (w : Waiter)
    → IsSound c state pending epoch w
    → IsSound c state pending' (epoch + 1) w
IsSound-notify c state pending pending' epoch (entering requested) h = h
IsSound-notify c state pending pending' epoch (armed requested seen) h = omega arith
IsSound-notify c state pending pending' epoch (asleep requested seen) h =
    (omega (arith, h.0), λ now quiet. absurd (omega (arith, h.0)))

module _ (c : AdmissionController) (state : AdmissionState) (pending epoch : ℕ)
    (front back : List Waiter) (old : Waiter) where
  -- One waiter is replaced, or leaves, and the others stay as they are.
  replace-IsSound :
      (new : Waiter)
      → All (IsSound c state pending epoch) (front ++ old ∷ back)
      → (IsSound c state pending epoch old → IsSound c state pending epoch new)
      → All (IsSound c state pending epoch) (front ++ new ∷ back)
  replace-IsSound new h keep =
      let (this, others) = (All-middle (IsSound c state pending epoch) front old back).0 h in
      (All-middle (IsSound c state pending epoch) front new back).1 (keep this, others)

  leave-IsSound :
      All (IsSound c state pending epoch) (front ++ old ∷ back)
      → All (IsSound c state pending epoch) (front ++ back)
  leave-IsSound h = ((All-middle (IsSound c state pending epoch) front old back).0 h).1

Step-AreSound : (c : AdmissionController) {s u : System} → Step c s u → AreSound c s → AreSound c u
Step-AreSound c {s} (arrive requested e) h =
    rw e (All-append (IsSound c s.state s.pending s.epoch) s.waiters _ h (tt, tt))
Step-AreSound c {s} (arm front back requested w e) h =
    rw e (replace-IsSound c s.state s.pending s.epoch front back _ _ (rw w at h) (λ _. omega arith))
Step-AreSound c {s} (admit front back requested seen state permit w p e) h = rw e (
    All-map (IsSound-admit c requested s.state state permit s.pending s.epoch p) (front ++ back)
      (leave-IsSound c s.state s.pending s.epoch front back _ (rw w at h)))
Step-AreSound c {s} (suspend front back requested seen w p e) h = rw e (
    replace-IsSound c s.state s.pending s.epoch front back _ _ (rw w at h)
      (λ below. (below, λ now quiet. p)))
Step-AreSound c {s} (wake front back requested seen w lt e) h =
    rw e (replace-IsSound c s.state s.pending s.epoch front back _ _ (rw w at h) (λ _. tt))
Step-AreSound c {s} (cancel front back waiter w e) h =
    rw e (leave-IsSound c s.state s.pending s.epoch front back _ (rw w at h))
Step-AreSound c {s} (drop front back permit held e) h =
    rw e (All-map (IsSound-drop c s.state _ s.pending s.epoch) s.waiters h)
Step-AreSound c {s} (notify pos e) h =
    rw e (All-map (IsSound-notify c s.state s.pending _ s.epoch) s.waiters h)

-- No wake-up is lost: at any time when no drop is still to notify, a caller that sleeps and that
-- no notification has reached would be refused if it looked now.
pub Reach-AreSound : (c : AdmissionController) {s : System} → Reach c s → AreSound c s
Reach-AreSound c here = tt
Reach-AreSound c (next r step) = Step-AreSound c step (Reach-AreSound c r)

-- A ceiling is a `u64`.
abbrev pub IsU64 : Option ℕ → Type 0
IsU64 none = Unit
IsU64 (some limit) = limit < u64_limit

memory_available_empty :
    (c : AdmissionController) (max_memory_mb : Option ℕ) (requested : ℕ) (state : AdmissionState)
    → c.max_memory_mb ≡ max_memory_mb
    → IsU64 max_memory_mb
    → state.memory_mb ≡ 0
    → memory_available c state (charge c requested) ≡ true
unfolding memory_available charge
memory_available_empty c none requested state e h z = ground arith
memory_available_empty c (some limit) requested state e h z = ground arith

-- When nothing runs, a request of any size is admitted, a task larger than the ceiling too.
pub idle_admits :
    (c : AdmissionController) {s : System} (requested : ℕ)
    → 0 < c.max_concurrency
    → IsU64 c.max_memory_mb
    → Reach c s
    → s.held ≡ []
    → try_acquire c requested s.state ≢ none
idle_admits c {s} requested slots fits r empty refused =
    let counted = Reach-IsCounted c r in
    let none_running : s.state.running ≡ 0 = counted.running ∙ ap length empty in
    let none_charged : s.state.memory_mb ≡ 0 = counted.memory ∙ ap total empty in
    let room = memory_available_empty c c.max_memory_mb requested s.state refl fits none_charged in
    elim ((try_acquire-eq-none_iff c requested s.state).0 refused) [
      | inl full ↦ absurd (omega arith)
      | inr over ↦ cc
    ]

-- A notification has reached the waiter, if it sleeps.
abbrev pub IsReady : ℕ → Waiter → Type 0
IsReady epoch (asleep requested seen) = seen < epoch
IsReady epoch _ = Unit

IsSound-IsReady :
    (c : AdmissionController) (state : AdmissionState) (epoch : ℕ)
    → ((requested : ℕ) → try_acquire c requested state ≢ none)
    → (w : Waiter) → IsSound c state 0 epoch w
    → IsReady epoch w
IsSound-IsReady c state epoch room (entering requested) h = tt
IsSound-IsReady c state epoch room (armed requested seen) h = tt
IsSound-IsReady c state epoch room (asleep requested seen) h = elim (Bool-cases (seen == epoch)) [
  | inl now ↦ absurd (room requested (h.1 ((==_iff seen epoch).0 now) refl))
  | inr before ↦ ground (arith, h.0)
]

-- There is no deadlock: with at least one slot, when no permit is held and no drop is still to
-- notify, every caller that sleeps has been notified, and a round of any caller would succeed.
pub no_deadlock :
    (c : AdmissionController) {s : System}
    → 0 < c.max_concurrency
    → IsU64 c.max_memory_mb
    → Reach c s
    → s.held ≡ []
    → s.pending ≡ 0
    → All (IsReady s.epoch) s.waiters × ((requested : ℕ) → try_acquire c requested s.state ≢ none)
no_deadlock c {s} slots fits r empty quiet =
    let room = λ (requested : ℕ). idle_admits c requested slots fits r empty in
    let sound : All (IsSound c s.state 0 s.epoch) s.waiters = rw (← quiet) (Reach-AreSound c r) in
    (All-map (IsSound-IsReady c s.state s.epoch room) s.waiters sound, room)
