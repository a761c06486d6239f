-- ===== src/Lib.antt =====
-- Nanoeval, an evaluation harness for coding agents: crates/nanoeval and its command
-- bin/nanoeval. A sweep of tasks, agents and trials is expanded to attempts; a job directory
-- on disk is bound to the sweep, so that an interrupted sweep is resumed and attempts with a
-- result are skipped; the attempts run as a batch, under a limit on their number and on their
-- memory.
--
-- The library follows these parts:
--
-- - Prelude: list lemmas, total orders, sorting, dictionaries (`BTreeMap`), results, paths,
--   distinctness and sorting by a key.
-- - Task: the record of a task, of crates/nanoeval/src/task.rs.
-- - Sweep: crates/nanoeval/src/sweep.rs. Sweep/Identity has `AgentId::new`, Sweep the builder,
--   `build`, `attempts`, `manifest` and `RunManifest::eq`, Sweep/Prefix has `trial_prefix` and
--   the `trial_name` of crates/nanoeval/src/evaluator.rs. Sweep/Identity/Grammar, Sweep/Build,
--   Sweep/Expansion and Sweep/Manifest prove what they do.
-- - Admission: `AdmissionController` of crates/nanoeval/src/evaluator.rs. `try_acquire` is one
--   round of the loop of `acquire` under the lock and `release` the drop of a permit under the
--   lock; Admission/Waiting has the steps of any number of callers, with the arming of the
--   notification, the round, the sleep, the cancellation, and the notification after a drop as
--   steps of their own. Admission/Invariant and Admission/Progress are about every state that
--   these steps reach.
-- - Job: crates/nanoeval/src/job.rs. Job has the listing of a job directory, Job/Binding
--   `bind_run`, Job/Resume `create` and `resume_or_create`.
-- - Errors: `EvalError` and its classification, of crates/nanoeval/src/evaluator.rs and
--   crates/nanoeval/src/result.rs.
-- - Evaluator: crates/nanoeval/src/evaluator.rs. Evaluator/Batches has `run_tasks` and the
--   inputs of `tasks_n`, Evaluator/Sweeping `sweep` and `remaining_attempts` over the job
--   directory, Evaluator/Configuration `NanoevalBuilder::build`, Evaluator/Attempt `run_task`
--   with the phases and the events of one attempt.
-- - Egress: crates/nanovm/src/egress.rs, the outbound access of a guest, with the network
--   modes of crates/nanovm/src/config.rs. Egress/Extending, Egress/Inserting and
--   Egress/Merging are about `merge`, Egress/Consistency about the mounts.
-- - Capabilities: crates/nanovm/src/capabilities.rs; libkrun's answers are a parameter.
-- - Task/Load: `Task::load` of crates/nanoeval/src/task.rs over the files of a directory;
--   Task/Load/Laws is about the tasks that load.
-- - Atif: crates/nanoeval/src/atif.rs. Atif/Turns has the map of turns, Atif/Events `apply`,
--   Atif/Trajectory `finish` and `finish_failure`; Atif/Pairing and Atif/Steps are about the
--   results of tools and the numbers of the steps.
-- - Retry: the retry queue of bin/nanoeval/src/eval.rs (`retained_retry_task_names`,
--   `retained_retry_lineage`, `retained_task_statuses`, `retained_retry_task_roots`):
--   Retry/Best and Retry/Statuses, Retry/Lineage, Retry/Overlay and Retry/Roots are about
--   them.
-- - Report: `report_progress`, `AttemptOutcome` and `RunSummary` of bin/nanoeval/src/eval.rs,
--   over the events of a run.
-- - Scheduling: `resolve_scheduling` and `scheduling_defaults` of bin/nanoeval/src/eval.rs.
-- - Cleanup: bin/nanoeval/src/cleanup.rs, over the entries of the walk and a file system that
--   is a function of paths.
-- - Compare: bin/nanoeval/src/compare.rs. Compare/Local loads a retained job,
--   Compare/Selection selects a task and an attempt, Compare/Scores has `RunScore::new`,
--   Compare/Published `JobComparison::new`, which uses the attempts of Archive, and
--   Compare/Show `resolve_show_selector` and the metrics of a trajectory.
-- - Archive: crates/nanoeval-harbor/src/published.rs. Archive has the records and `attempts`,
--   Archive/Query `query`, Archive/Download the retries and the limits of `download`.
-- - Session: crates/nanocodex-vm/src/protocol.rs and session.rs. Session has the messages,
--   Session/Process the wait for a process, Session/Guest the loop of `serve_guest` and what
--   it answers, Session/Command the commands and Session/Host the calls of `VmToolSession`,
--   Session/Calls both ends together and the same calls on the guest itself; Session/Responses
--   is about the late responses, Session/Loop about the loop, Session/Serving and
--   Session/Refinement about the calls, Session/Framing about the lines. The console carries
--   texts: each is written with a line feed behind it and read line by line, so that a text
--   with a line feed in it arrives as several lines.
-- - Harbor: crates/nanoeval-harbor/src/lib.rs. Harbor has the results file of a job,
--   Harbor/Stats `HarborJobDelta` and what `write_job` writes, Harbor/Passes
--   `compute_harbor_pass_at_k`; Harbor/Balance and Harbor/Totals are about the counts,
--   Harbor/Groups and Harbor/Eligible about pass@k.
--
-- Numbers are natural numbers; `usize` and `u64` sums and products are checked against 2^64
-- where the source checks them, and subtraction stops at 0 where the source saturates. The
-- decimal digits of a trial are written on fuel, one step more than the number itself, which
-- is more than it has digits. The agent's runtime, JSON, and the operating system are
-- parameters: an agent is a value of any type, the text of a manifest is what a `ManifestJson`
-- writes and reads back, and the outcome of a system call is a value that the operation
-- receives. The stream of a batch is the list of its completions in the order in which they
-- happen. What a directory holds is a value too: the entries of a job with what their files
-- read as, the records of the published archive, the answers of its server. The search of a
-- lineage of retries runs on fuel, one more than there are paths, and a download on fuel 8,
-- the number of requests that it allows itself; for both it is proved that the fuel does not
-- run out. The loops over the values of k have one round more than there are trials; what they
-- list is proved. Of a console, the lines that come back for a text that is written are the
-- state's, and what the guest makes of them goes line by line; a request that is given up has
-- been written whole, for the source does not recover from half a line. The counters of a
-- results file have no upper bound. `to_lowercase` is a parameter, for its tables are
-- Unicode's; rewards and costs, which are floating-point numbers, are of any type, with the
-- comparisons that the code makes.
--
-- Not modelled: the workspace on disk and the agent and verifier that run in it, telemetry and
-- event subscriptions, virtual machines and their images, the commands of git and the cache of
-- the archive's index, the recorder of Harbor's results and the files that it writes for a
-- trial, the printing of reports, and the command line.
pub mod Prelude
pub mod Task
pub mod Session
pub mod Harbor
pub mod Sweep
pub mod Admission
pub mod Errors
pub mod Job
pub mod Evaluator
pub mod Egress
pub mod Report
pub mod Retry
pub mod Scheduling
pub mod Atif
pub mod Cleanup
pub mod Compare
pub mod Archive
pub mod Capabilities
