-- ===== src/Compare/Published.antt =====
-- The published runs beside a retained job in bin/nanoeval/src/compare.rs: which of them cover the
-- job's task revisions, their scores and their order; and the submission that `--show` names.
pub mod Tallies
pub mod Names
pub mod Laws
use nanoeval.Prelude.{
  ℕ, Bool, List, Option, Result, String, [], err, false, filter, if◌then◌else◌, is_present, length,
  ltb, map, none, not, ok, ok_or, some, str_eq, take, true, ◌&&◌, ◌==◌, ◌>>=◌, ◌∷◌,
}
use nanoeval.Prelude.Dict.{Dict, insert, lookup, values}
use nanoeval.Prelude.Dict.Totals.{sum_of}
use nanoeval.Prelude.Order.{text_order, lex_order}
use nanoeval.Prelude.Sets.{collect_members, insert_member, option_order}
use nanoeval.Prelude.StableSort.{sort_by}
use nanoeval.Archive.{PublishedAttempt, PublishedAgentInfo, PublishedAttempts}
use nanoeval.Compare.{
  TaskScore, CompareError, archive_changed, checksum_lost, or_insert, scored, unscored,
}
use nanoeval.Compare.Local.{LocalJob, insert_some}
use nanoeval.Compare.Scores.{RunScore, local_score, new_score, published_config}

pub record PublishedRun : Type 0 where
  pub agent : Option PublishedAgentInfo
  pub thinking_values : List (Option String)
  pub import_paths : List String
  pub runs : List String
  pub tasks : Dict TaskScore

-- `PublishedRun::default`
abbrev pub empty_run : PublishedRun
empty_run = record { agent = none; thinking_values = []; import_paths = []; runs = []; tasks = [] }

-- the score of an attempt's task with the attempt
abbrev pub published_score : Dict TaskScore → PublishedAttempt → TaskScore
published_score tasks attempt =
    scored
      (or_insert (lookup attempt.task_name tasks)
        (unscored attempt.task_name attempt.task_checksum))
      attempt.passed attempt.errored (is_present attempt.trajectory_path)

-- `PublishedRun::record`
unfoldable pub record_published : PublishedRun → PublishedAttempt → PublishedRun
record_published run attempt = record {
  agent = some (or_insert run.agent attempt.agent);
  thinking_values = insert_member (option_order text_order) attempt.thinking run.thinking_values;
  import_paths = insert_some attempt.agent_import_path run.import_paths;
  runs = insert_member text_order attempt.run run.runs;
  tasks = insert attempt.task_name (published_score run.tasks attempt) run.tasks;
}

-- the agent, its version and its model
unfoldable pub agent_labels : Option PublishedAgentInfo → String × Option String × String
agent_labels none = ("unknown", none, "unknown")
agent_labels (some info) =
    (info.name, info.version, elim info.model_info [ none ↦ "unknown" | some model ↦ model.name ])

-- `flatten`
abbrev pub present : {A : Type 0} → List (Option A) → List A
present [] = []
present (none ∷ later) = present later
present (some a ∷ later) = a ∷ present later

-- `RunScore::published`
unfoldable pub published_run_score : String → PublishedRun → Bool → RunScore
unfolding new_score agent_labels
published_run_score submission published exact_revision =
    let (agent_name, agent_version, model) = agent_labels published.agent in
    let task_scores = values published.tasks in
    new_score (record {
      submission = submission;
      runs = published.runs;
      agent = agent_name;
      agent_version = agent_version;
      agent_import_paths = published.import_paths;
      model = model;
      thinking = record {
        configured = present published.thinking_values;
        observed = [];
        observed_trials = 0;
        total_trials = sum_of (λ task. task.trials) task_scores;
        provenance = published_config;
      };
      exact_revision = exact_revision;
      task_scores = task_scores;
    })

-- The order of `sort_runs`: more tasks solved, then more trials passed, then fewer errors, then by
-- submission.
unfoldable pub run_before : RunScore → RunScore → Bool
run_before left right =
    if not (left.pass_at_k_tasks == right.pass_at_k_tasks)
    then ltb right.pass_at_k_tasks left.pass_at_k_tasks
    else if not (left.passes == right.passes)
    then ltb right.passes left.passes
    else if not (left.errors == right.errors)
    then ltb left.errors right.errors
    else text_order.le left.submission right.submission

unfoldable pub sort_runs : List RunScore → List RunScore
unfolding sort_by run_before
sort_runs runs = sort_by run_before runs

-- The runs by submission, and those of other revisions by submission and checksum.
pub record Runs : Type 0 where
  pub exact_runs : Dict PublishedRun
  pub other_runs : List ((String × String) × PublishedRun)

-- `entry((submission, checksum)).or_default().record(attempt)`, the keys in increasing order
unfoldable pub record_other :
    String × String
    → PublishedAttempt
    → List ((String × String) × PublishedRun)
    → List ((String × String) × PublishedRun)
unfolding record_published
record_other key attempt [] = (key, record_published empty_run attempt) ∷ []
record_other key attempt ((first, run) ∷ later) =
    let rest = record_other key attempt later in
    let order = lex_order text_order in
    let below = order.le (key.0 ∷ key.1 ∷ []) (first.0 ∷ first.1 ∷ []) in
    let above = order.le (first.0 ∷ first.1 ∷ []) (key.0 ∷ key.1 ∷ []) in
    if below && above
    then (first, record_published run attempt) ∷ later
    else if below
    then (key, record_published empty_run attempt) ∷ (first, run) ∷ later
    else (first, run) ∷ rest

unfoldable pub record_attempt : Bool → String → Runs → PublishedAttempt → Runs
unfolding record_published record_other
record_attempt one_task checksum runs attempt =
    if str_eq attempt.task_checksum checksum
    then record runs {
      exact_runs =
          insert attempt.submission
            (record_published (or_insert (lookup attempt.submission runs.exact_runs) empty_run)
              attempt)
            runs.exact_runs;
    }
    else if one_task
    then record runs {
      other_runs = record_other (attempt.submission, attempt.task_checksum) attempt runs.other_runs;
    }
    else runs

-- the two loops of `JobComparison::new`
unfoldable pub record_attempts : Bool → String → Runs → List PublishedAttempt → Runs
unfolding record_attempt
record_attempts one_task checksum runs [] = runs
record_attempts one_task checksum runs (attempt ∷ later) =
    record_attempts one_task checksum (record_attempt one_task checksum runs attempt) later

unfoldable pub record_tasks :
    {E : Type 0} → Bool → Runs → List PublishedAttempts → Result Runs (CompareError E)
unfolding record_attempts
record_tasks one_task runs [] = ok runs
record_tasks one_task runs (task ∷ tasks) = do
  checksum ← ok_or task.requested_checksum checksum_lost
  record_tasks one_task (record_attempts one_task checksum runs task.attempts) tasks

-- The job's directory, the seconds of the lookup and the drill-down, which `new` takes as they are,
-- are left out.
pub record JobComparison : Type 0 where
  pub archive_revision : String
  pub local : RunScore
  pub exact : List RunScore
  pub other_revisions : List RunScore

-- the one revision of the archive that all the queries saw
unfoldable pub single_revision :
    {E : Type 0} → List PublishedAttempts → Result String (CompareError E)
single_revision tasks =
    elim (collect_members text_order (map (λ task. task.archive_revision) tasks)) [
      | revision ∷ [] ↦ ok revision
      | revisions ↦ err archive_changed
    ]

-- the runs that cover every task of the job
abbrev pub covering : ℕ → Dict PublishedRun → List RunScore
covering expected_tasks exact_runs =
    map (λ e. published_run_score (e.0) (e.1) true)
      (filter (λ e. length (e.1).tasks == expected_tasks) exact_runs)

-- `JobComparison::new`
unfoldable pub new_comparison :
    {E : Type 0} → LocalJob → List PublishedAttempts → ℕ → Result JobComparison (CompareError E)
unfolding single_revision local_score record_tasks published_run_score sort_runs
new_comparison job published_tasks limit = do
  archive_revision ← single_revision published_tasks
  let expected_tasks = length job.tasks in
      do
        runs ←
            record_tasks (expected_tasks == 1) (record { exact_runs = []; other_runs = [] })
              published_tasks
        ok (record {
          archive_revision = archive_revision;
          local = local_score job;
          exact = take limit (sort_runs (covering expected_tasks runs.exact_runs));
          other_revisions =
              take limit
                (sort_runs (map (λ e. published_run_score ((e.0).0) (e.1) false) runs.other_runs));
        })
