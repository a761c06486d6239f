-- ===== src/Scheduling/Tests.antt =====
-- A host of eight processors and sixteen gibibytes of memory.
use nanoeval.Retry.{RunInvocation}
use nanoeval.Prelude.{none, refl, some, ◌≡◌, Option, arith, if◌then◌else◌, leb}
use nanoeval.Scheduling.{
  resolve_scheduling, HostResources, SchedulingArguments, percentage, resolve_memory,
  scheduling_defaults, LegacyJobConfig,
}
use nanoeval.Scheduling.Bounds.{limits, AreWithinHost, resolve_scheduling-AreWithinHost}

abbrev eight_processors : HostResources
eight_processors = record { logical_cpus = 8; physical_memory_bytes = some 17179869184 }

abbrev no_limits : SchedulingArguments
no_limits = record { concurrency = none; max_memory_mb = none; host_utilization = 80 }

limits_resolved :
    limits (resolve_scheduling eight_processors no_limits none none)
    ≡ record { concurrency = 6; max_memory_mb = some 13107 }
unfolding resolve_scheduling scheduling_defaults resolve_memory percentage
limits_resolved = refl

resolve_scheduling-AreWithinHost_example :
    AreWithinHost eight_processors
      (limits (resolve_scheduling eight_processors no_limits none none))
    × ((invocation : RunInvocation) (legacy : Option LegacyJobConfig)
        → limits (resolve_scheduling eight_processors no_limits (some invocation) legacy) ≡ record {
          concurrency = invocation.concurrency;
          max_memory_mb = invocation.max_memory_mb;
        })
    × ((legacy : LegacyJobConfig)
        → limits (resolve_scheduling eight_processors no_limits none (some legacy)) ≡ record {
          concurrency =
              if leb legacy.n_concurrent_trials 65535
              then legacy.n_concurrent_trials
              else (scheduling_defaults eight_processors 80).concurrency;
          max_memory_mb = none;
        })
resolve_scheduling-AreWithinHost_example =
    resolve_scheduling-AreWithinHost eight_processors no_limits (omega arith) refl refl
