-- ===== src/Scheduling.antt =====
-- The scheduling of a run, of bin/nanoeval/src/eval.rs: how many attempts run at once and how much
-- memory they may declare, from the arguments, a retained job and the resources of the host.
pub mod Bounds
mod Tests
use nanoeval.Prelude.{
  ℕ, Bool, Option, false, if◌then◌else◌, is_present, leb, max, min, none, not, some, ◌&&◌, ◌*◌, ◌/◌,
  ◌||◌,
}
use nanoeval.Retry.{RunInvocation}

pub record HostResources : Type 0 where
  pub logical_cpus : ℕ
  pub physical_memory_bytes : Option ℕ

pub record SchedulingDefaults : Type 0 where
  pub concurrency : ℕ
  pub max_memory_mb : Option ℕ

pub record AutomaticScheduling : Type 0 where
  pub utilization_percent : ℕ
  pub host : HostResources
  pub concurrency : Bool
  pub memory : Bool

pub record ResolvedScheduling : Type 0 where
  pub concurrency : ℕ
  pub max_memory_mb : Option ℕ
  pub automatic : Option AutomaticScheduling

-- the arguments of the command that are looked at
pub record SchedulingArguments : Type 0 where
  pub concurrency : Option ℕ
  pub max_memory_mb : Option ℕ
  pub host_utilization : ℕ

-- `n_concurrent_trials` of a `LegacyJobConfig`
pub record LegacyJobConfig : Type 0 where
  pub n_concurrent_trials : ℕ

-- `percentage`: the product saturates at the largest `u64`
unfoldable pub percentage : ℕ → ℕ → ℕ
percentage value percent = min (value * percent) 18446744073709551615 / 100

-- `u16::try_from(..).unwrap_or(u16::MAX)`
abbrev pub as_u16 : ℕ → ℕ
as_u16 n = if leb n 65535 then n else 65535

-- `HostResources::scheduling_defaults`
unfoldable pub scheduling_defaults : HostResources → ℕ → SchedulingDefaults
unfolding percentage
scheduling_defaults host utilization_percent = record {
  concurrency = as_u16 (max (percentage host.logical_cpus utilization_percent) 1);
  max_memory_mb = elim host.physical_memory_bytes [
    | none ↦ none
    | some bytes ↦ some (max (percentage bytes utilization_percent / 1048576) 1)
  ];
}

-- `u16::try_from(..).ok()`
abbrev pub u16_of : Option LegacyJobConfig → Option ℕ
u16_of none = none
u16_of (some job) = if leb job.n_concurrent_trials 65535 then some job.n_concurrent_trials else none

abbrev pub concurrency_of : Option RunInvocation → Option ℕ
concurrency_of none = none
concurrency_of (some invocation) = some invocation.concurrency

-- `or` and `unwrap_or`
abbrev pub or_value : {A : Type 0} → Option A → A → A
or_value none fallback = fallback
or_value (some a) fallback = a

-- the memory, and whether it is the default of the host
unfoldable pub resolve_memory :
    Option ℕ → Option RunInvocation → Option LegacyJobConfig → Option ℕ → Option ℕ × Bool
resolve_memory (some memory) retained legacy fallback = (some memory, false)
resolve_memory none (some invocation) legacy fallback = (invocation.max_memory_mb, false)
resolve_memory none none (some job) fallback = (none, false)
resolve_memory none none none fallback = (fallback, is_present fallback)

-- `Eval::resolve_scheduling`; the host is what `HostResources::detect` finds.
unfoldable pub resolve_scheduling :
    HostResources
    → SchedulingArguments
    → Option RunInvocation
    → Option LegacyJobConfig
    → ResolvedScheduling
unfolding scheduling_defaults resolve_memory
resolve_scheduling host arguments retained legacy =
    let defaults = scheduling_defaults host arguments.host_utilization in
    let retained_concurrency = concurrency_of retained in
    let legacy_concurrency = u16_of legacy in
    let automatic_concurrency =
      not (is_present arguments.concurrency)
      && not (is_present retained_concurrency)
      && not (is_present legacy_concurrency) in
    let memory = resolve_memory arguments.max_memory_mb retained legacy defaults.max_memory_mb in
    record {
      concurrency =
          or_value arguments.concurrency
            (or_value retained_concurrency (or_value legacy_concurrency defaults.concurrency));
      max_memory_mb = memory.0;
      automatic =
          if automatic_concurrency || memory.1
          then some (record {
            utilization_percent = arguments.host_utilization;
            host = host;
            concurrency = automatic_concurrency;
            memory = memory.1;
          })
          else none;
    }
