-- ===== src/Scheduling/Bounds.antt =====
-- The limits that bin/nanoeval/src/eval.rs takes from the resources of the host.
use nanoeval.Retry.{RunInvocation}
use nanoeval.Prelude.{
  ℕ, arith, max, min, some, ◌*◌, ◌/◌, ◌≡◌, ◌≤◌, Option, Option-cases, inl, inr, none, refl,
  if◌then◌else◌, leb,
}
use native.Mathlib.Nat.{mul-le-mul_left}
use nanoeval.Scheduling.{
  HostResources, SchedulingDefaults, percentage, LegacyJobConfig, SchedulingArguments, as_u16,
  resolve_memory, resolve_scheduling, scheduling_defaults, ResolvedScheduling,
}

-- the limits of a run
abbrev pub limits : ResolvedScheduling → SchedulingDefaults
limits resolved = record {
  concurrency = resolved.concurrency;
  max_memory_mb = resolved.max_memory_mb;
}

div_le : (a b : ℕ) → a ≤ b * 100 → a / 100 ≤ b
div_le a b h = omega arith

percentage-le : (value percent : ℕ) → percent ≤ 100 → percentage value percent ≤ value
unfolding percentage
percentage-le value percent h =
    let bound : value * percent ≤ value * 100 = mul-le-mul_left value h in
    div_le (min (value * percent) 18446744073709551615) value (omega arith)

-- The defaults leave the host some room: at least one attempt and at most one for each processor or
-- 65535, and at least one mebibyte and at most what there is.
pub record AreWithinHost (host : HostResources) (defaults : SchedulingDefaults) : Type 0 where
  pub some_attempt : 1 ≤ defaults.concurrency
  pub processors : defaults.concurrency ≤ max host.logical_cpus 1
  pub u16 : defaults.concurrency ≤ 65535
  pub memory :
      (memory_mb : ℕ)
      → defaults.max_memory_mb ≡ some memory_mb
      → (bytes : ℕ) × (host.physical_memory_bytes ≡ some bytes)
        × (1 ≤ memory_mb)
        × (memory_mb ≤ max (bytes / 1048576) 1)

as_u16-le : (n : ℕ) → (as_u16 n ≤ n) × (as_u16 n ≤ 65535) × (1 ≤ n → 1 ≤ as_u16 n)
as_u16-le n = ground arith

scheduling_defaults-AreWithinHost :
    (host : HostResources) (percent : ℕ)
    → percent ≤ 100
    → AreWithinHost host (scheduling_defaults host percent)
unfolding scheduling_defaults
scheduling_defaults-AreWithinHost host percent h =
    let share = percentage host.logical_cpus percent in
    let (below, small, some_left) = as_u16-le (max share 1) in
    let within = percentage-le host.logical_cpus percent h in
    record {
      some_attempt = some_left (omega arith);
      processors = omega (arith, below, within);
      u16 = small;
      memory = λ memory_mb e. elim (Option-cases host.physical_memory_bytes) [
        | inl unknown ↦ absurd (cc (rw unknown at e))
        | inr (bytes, found) ↦
            let value : max (percentage bytes percent / 1048576) 1 ≡ memory_mb =
              cc (rw found at e) in
            (
              bytes,
              found,
              omega (arith, value),
              omega (arith, value, percentage-le bytes percent h),
            )
      ];
    }

-- With a share of at most all of the host, a run that is given no limits and that is not a retry runs
-- at least one attempt at once and at most one for each processor, and its attempts may declare at
-- least one mebibyte and at most the memory of the host. A retry that is given no limits keeps those
-- of the job's retained invocation; without one, it keeps the concurrency of the job's legacy
-- configuration, or the default where that is above 65535, and has no limit on memory.
pub resolve_scheduling-AreWithinHost :
    (host : HostResources) (arguments : SchedulingArguments)
    → arguments.host_utilization ≤ 100
    → arguments.concurrency ≡ none
    → arguments.max_memory_mb ≡ none
    → AreWithinHost host (limits (resolve_scheduling host arguments none none))
      × ((invocation : RunInvocation) (legacy : Option LegacyJobConfig)
          → limits (resolve_scheduling host arguments (some invocation) legacy) ≡ record {
            concurrency = invocation.concurrency;
            max_memory_mb = invocation.max_memory_mb;
          })
      × ((legacy : LegacyJobConfig)
          → limits (resolve_scheduling host arguments none (some legacy)) ≡ record {
            concurrency =
                if leb legacy.n_concurrent_trials 65535
                then legacy.n_concurrent_trials
                else (scheduling_defaults host arguments.host_utilization).concurrency;
            max_memory_mb = none;
          })
unfolding resolve_scheduling resolve_memory
resolve_scheduling-AreWithinHost host arguments h e f =
    let within = scheduling_defaults-AreWithinHost host arguments.host_utilization h in
    (rw e (rw f within), λ invocation legacy. rw e (rw f refl), λ legacy. ground (arith, e, f))
