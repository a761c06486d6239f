-- ===== src/Admission/Waiting.antt =====
-- `AdmissionController::acquire` and the permits' drops, as the steps of concurrent callers.
-- `Notify` is a count of the calls of `notify_waiters`: a `notified()` future that was created at
-- count `e` is ready once the count has passed `e`. A drop changes the state under the lock, and
-- notifies after it has let the lock go, so the two are separate steps.
use nanoeval.Admission.{
  idle, AdmissionState, AdmissionController, AdmissionPermit, release, try_acquire,
}
use nanoeval.Prelude.{ℕ, List, [], none, some, ◌++◌, ◌+◌, ◌-◌, ◌<◌, ◌∷◌, ◌≡◌}

-- Where a caller of `acquire` stands, with the memory that it asks for: at the head of the loop,
-- behind `notified()`, or awaiting it.
pub data Waiter : Type 0 where
  entering : ℕ → Waiter
  armed : ℕ → ℕ → Waiter
  asleep : ℕ → ℕ → Waiter

pub record System : Type 0 where
  pub state : AdmissionState
  pub held : List AdmissionPermit
  pub waiters : List Waiter
  pub pending : ℕ
  pub epoch : ℕ

abbrev pub start : System
start = record { state = idle; held = []; waiters = []; pending = 0; epoch = 0 }

-- Constructors: a caller arrives; it takes its `notified()` future; its round under the lock
-- succeeds, or fails; a notification wakes it; its future is dropped; a permit is dropped; the
-- drop notifies.
pub data Step (c : AdmissionController) (s u : System) : Type 0 where
  arrive :
      (requested : ℕ) → u ≡ record s { waiters = s.waiters ++ entering requested ∷ [] } → Step c s u
  arm :
      (before after : List Waiter) (requested : ℕ)
      → s.waiters ≡ before ++ entering requested ∷ after
      → u ≡ record s { waiters = before ++ armed requested s.epoch ∷ after }
      → Step c s u
  admit :
      (before after : List Waiter) (requested seen : ℕ) (state : AdmissionState)
      (permit : AdmissionPermit)
      → s.waiters ≡ before ++ armed requested seen ∷ after
      → try_acquire c requested s.state ≡ some (state, permit)
      → u ≡ record s { state = state; held = permit ∷ s.held; waiters = before ++ after }
      → Step c s u
  suspend :
      (before after : List Waiter) (requested seen : ℕ)
      → s.waiters ≡ before ++ armed requested seen ∷ after
      → try_acquire c requested s.state ≡ none
      → u ≡ record s { waiters = before ++ asleep requested seen ∷ after }
      → Step c s u
  wake :
      (before after : List Waiter) (requested seen : ℕ)
      → s.waiters ≡ before ++ asleep requested seen ∷ after
      → seen < s.epoch
      → u ≡ record s { waiters = before ++ entering requested ∷ after }
      → Step c s u
  cancel :
      (before after : List Waiter) (waiter : Waiter)
      → s.waiters ≡ before ++ waiter ∷ after
      → u ≡ record s { waiters = before ++ after }
      → Step c s u
  drop :
      (before after : List AdmissionPermit) (permit : AdmissionPermit)
      → s.held ≡ before ++ permit ∷ after
      → u ≡ record s {
        state = release permit s.state;
        held = before ++ after;
        pending = s.pending + 1;
      }
      → Step c s u
  notify :
      0 < s.pending → u ≡ record s { pending = s.pending - 1; epoch = s.epoch + 1 } → Step c s u

pub data Reach (c : AdmissionController) : System → Type 0 where
  here : Reach c start
  next : {s u : System} → Reach c s → Step c s u → Reach c u
