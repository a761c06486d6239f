-- ===== src/Admission.antt =====
-- `AdmissionController` of crates/nanoeval/src/evaluator.rs: a bound on the attempts that run at
-- once and on the memory that their tasks declare. A `u64` sum is checked against 2^64.
pub mod Waiting
pub mod Invariant
pub mod Progress
mod Tests
use nanoeval.Prelude.{
  ℕ, Bool, Option, if◌then◌else◌, leb, ltb, min, none, some, true, ◌&&◌, ◌+◌, ◌-◌, ◌^◌,
}

pub record AdmissionController : Type 0 where
  pub max_concurrency : ℕ
  pub max_memory_mb : Option ℕ

pub record AdmissionState : Type 0 where
  pub running : ℕ
  pub memory_mb : ℕ

pub record AdmissionPermit : Type 0 where
  pub memory_mb : ℕ

abbrev pub idle : AdmissionState
idle = record { running = 0; memory_mb = 0 }

abbrev pub u64_limit : ℕ
u64_limit = 2 ^ 64

-- the first statement of `acquire`
unfoldable pub charge : AdmissionController → ℕ → ℕ
charge controller requested = elim controller.max_memory_mb [
  | none ↦ 0
  | some limit ↦ min requested limit
]

unfoldable pub memory_available : AdmissionController → AdmissionState → ℕ → Bool
memory_available controller state memory_mb = elim controller.max_memory_mb [
  | none ↦ true
  | some limit ↦
      ltb (state.memory_mb + memory_mb) u64_limit && leb (state.memory_mb + memory_mb) limit
]

-- One round of the loop of `acquire`, under the lock: the new state and the permit, or nothing.
unfoldable pub try_acquire :
    AdmissionController → ℕ → AdmissionState → Option (AdmissionState × AdmissionPermit)
unfolding charge memory_available
try_acquire controller requested state =
    let memory_mb = charge controller requested in
    if ltb state.running controller.max_concurrency && memory_available controller state memory_mb
    then some (
      record { running = state.running + 1; memory_mb = state.memory_mb + memory_mb },
      record { memory_mb = memory_mb },
    )
    else none

-- `Drop for AdmissionPermit`, under the lock; `-` stops at 0 as `saturating_sub` does.
unfoldable pub release : AdmissionPermit → AdmissionState → AdmissionState
release permit state = record {
  running = state.running - 1;
  memory_mb = state.memory_mb - permit.memory_mb;
}
