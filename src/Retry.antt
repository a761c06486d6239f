-- ===== src/Retry.antt =====
-- The retry queue of bin/nanoeval/src/eval.rs: which tasks of a retained job and of its ancestors
-- are still unresolved. What the retained files and directories hold is a value here; `E` is the
-- error of the operating system and of the parser, and a set of texts is the list of its members
-- in order.
pub mod Best
pub mod Statuses
pub mod Overlay
pub mod Lineage
pub mod Roots
mod Tests
use nanoeval.Prelude.{
  ℕ, Bool, List, Option, Result, String, [], all, any, err, false, filter, if◌then◌else◌, length,
  map, map_ok, none, ok, reverse, some, str_eq, suc, true, zero, ◌&&◌, ◌++◌, ◌==◌, ◌>>=◌, ◌∷◌,
}
use nanoeval.Prelude.Dict.{insert, lookup, keys, Dict}
use nanoeval.Prelude.Dict.Ordered.{union}
use nanoeval.Prelude.Paths.{FilePath, path_eq}
use nanoeval.Errors.{is_some_and}

pub data RetainedTrialStatus : Type 0 where
  passed failed refused errored : RetainedTrialStatus

-- `RetainedTrialStatus::merge`
unfoldable pub merge : RetainedTrialStatus → RetainedTrialStatus → RetainedTrialStatus
merge passed other = passed
merge failed passed = passed
merge failed _ = failed
merge refused passed = passed
merge refused failed = failed
merge refused _ = refused
merge errored other = other

pub record RetainedTrialResult (Reward : Type 0) : Type 0 where
  pub task_name : String
  pub rewards : Option (Dict Reward)
  pub exception_type : Option String

-- `RetainedTrialResult::status`, over the test whether a reward is above 0
unfoldable pub status :
    {Reward : Type 0} → (Reward → Bool) → RetainedTrialResult Reward → RetainedTrialStatus
status positive result = elim result.exception_type [
  | some name ↦ if str_eq name "AgentSafetyRefusalError" then refused else errored
  | none ↦
      if is_some_and result.rewards (all (λ reward. positive (reward.1))) then passed else failed
]

-- One entry of a job's directory: what `file_type` says, whether there is a `result.json`, and
-- what it reads as.
pub record RetainedEntry (Reward E : Type 0) : Type 0 where
  pub is_dir : Result Bool E
  pub has_result : Bool
  pub result : Result (RetainedTrialResult Reward) E

-- the `and_modify` and the `or_insert`
abbrev pub joined : Option RetainedTrialStatus → RetainedTrialStatus → RetainedTrialStatus
joined none status = status
joined (some retained) status = merge retained status

-- `entry(..).and_modify(..).or_insert(..)`
unfoldable pub note_status :
    Dict RetainedTrialStatus → String × RetainedTrialStatus → Dict RetainedTrialStatus
note_status statuses (task_name, status) =
    insert task_name (joined (lookup task_name statuses) status) statuses

module _ {Reward E : Type 0} (positive : Reward → Bool) where
  -- what one entry adds: at most one trial
  unfoldable pub entry_trials :
      RetainedEntry Reward E → Result (Option (String × RetainedTrialStatus)) E
  entry_trials entry = do
    is_dir ← entry.is_dir
    if is_dir && entry.has_result
        then map_ok (λ result. some (result.task_name, status positive result)) entry.result
        else ok none

  -- the loop of `retained_task_statuses`
  unfoldable pub add_statuses :
      Dict RetainedTrialStatus
      → List (Result (RetainedEntry Reward E) E)
      → Result (Dict RetainedTrialStatus) E
  unfolding entry_trials note_status
  add_statuses statuses [] = ok statuses
  add_statuses statuses (err error ∷ entries) = err error
  add_statuses statuses (ok entry ∷ entries) = do
    found ← entry_trials entry
    add_statuses (elim found [ none ↦ statuses | some trial ↦ note_status statuses trial ]) entries

  unfoldable pub retained_task_statuses :
      Result (List (Result (RetainedEntry Reward E) E)) E → Result (Dict RetainedTrialStatus) E
  unfolding add_statuses
  retained_task_statuses listing = do entries ← listing; add_statuses [] entries

pub data VmRetention : Type 0 where
  failures all_attempts : VmRetention

pub record RunInvocation : Type 0 where
  pub version : ℕ
  pub trials : ℕ
  pub concurrency : ℕ
  pub max_memory_mb : Option ℕ
  pub vm : Bool
  pub vm_rootfs : Option FilePath
  pub vm_retention : VmRetention
  pub thinking : String
  pub web_search : Bool
  pub rerun_from : Option FilePath

pub data RetryError (E : Type 0) : Type 0 where
  other : E → RetryError E
  lineage_cycle : FilePath → RetryError E
  unsupported_version : ℕ → RetryError E
  parent_unavailable : FilePath → E → RetryError E
  missing_definitions : List String → RetryError E

-- What a job's directory holds for the queue: its invocation, if there is one, and its entries;
-- and what `canonicalize` gives for a path.
pub record Retained (Reward E : Type 0) : Type 0 where
  pub canonicalize : FilePath → Result FilePath E
  pub invocation : FilePath → Result (Option RunInvocation) E
  pub entries : FilePath → Result (List (Result (RetainedEntry Reward E) E)) E

-- `INVOCATION_VERSION`
abbrev pub invocation_version : ℕ
invocation_version = 1

abbrev pub lift : {A E : Type 0} → Result A E → Result A (RetryError E)
lift (ok a) = ok a
lift (err error) = err (other error)

check_version : {E : Type 0} → Option RunInvocation → Result (Option RunInvocation) (RetryError E)
check_version none = ok none
check_version (some invocation) =
    if invocation.version == invocation_version
    then ok (some invocation)
    else err (unsupported_version invocation.version)

pub record RetainedRetryQueue : Type 0 where
  pub task_names : List String
  pub unresolved_tasks : ℕ
  pub lineage : List FilePath

module _ {Reward E : Type 0} (retained : Retained Reward E) where
  open retained use {canonicalize, invocation, entries}

  unfoldable pub load_invocation : FilePath → Result (Option RunInvocation) (RetryError E)
  unfolding check_version
  load_invocation job = do found ← lift (invocation job); check_version found

  resolve_parent : Option FilePath → Result (Option FilePath) (RetryError E)
  resolve_parent none = ok none
  resolve_parent (some parent) = elim (canonicalize parent) [
    | ok path ↦ ok (some path)
    | err error ↦ err (parent_unavailable parent error)
  ]

  -- the job that a job is a retry of
  unfoldable pub parent_of : FilePath → Result (Option FilePath) (RetryError E)
  unfolding load_invocation resolve_parent
  parent_of job = do
    found ← load_invocation job
    resolve_parent (elim found [ none ↦ none | some run ↦ run.rerun_from ])

  -- The loop of `retained_retry_lineage`; `none` means that the fuel ran out.
  unfoldable pub walk :
      ℕ → FilePath → List FilePath → List FilePath → Option (Result (List FilePath) (RetryError E))
  walk zero current seen lineage = none
  walk (suc fuel) current seen lineage = elim (any (λ job. path_eq job current) seen) [
    | true ↦ some (err (lineage_cycle current))
    | false ↦ elim (parent_of current) [
      | err error ↦ some (err error)
      | ok none ↦ some (ok (reverse (lineage ++ current ∷ [])))
      | ok (some parent) ↦ walk fuel parent (current ∷ seen) (lineage ++ current ∷ [])
    ]
  ]

  unfoldable pub retained_retry_lineage :
      ℕ → FilePath → Option (Result (List FilePath) (RetryError E))
  unfolding walk
  retained_retry_lineage fuel job = elim (canonicalize job) [
    | err error ↦ some (err (other error))
    | ok current ↦ walk fuel current [] []
  ]

-- the `match` on a status
unfoldable pub is_retryable : Bool → Bool → RetainedTrialStatus → Bool
is_retryable include_refused include_errored failed = true
is_retryable include_refused include_errored refused = include_refused
is_retryable include_refused include_errored errored = include_errored
is_retryable include_refused include_errored passed = false

-- `matcher.is_none_or(..)`
abbrev pub is_selected : Option (String → Bool) → String → Bool
is_selected none task_name = true
is_selected (some is_match) task_name = is_match task_name

module _ {Reward E : Type 0} (positive : Reward → Bool) (retained : Retained Reward E) where
  -- the loop over the lineage
  unfoldable pub overlay :
      Dict RetainedTrialStatus → List FilePath → Result (Dict RetainedTrialStatus) (RetryError E)
  overlay statuses [] = ok statuses
  overlay statuses (job ∷ jobs) = do
    newer ← lift (retained_task_statuses positive (retained.entries job))
    overlay (union statuses newer) jobs

  -- `retained_retry_task_names`, behind the lineage
  unfoldable pub retry_queue :
      Bool
      → Bool
      → Option (String → Bool)
      → List FilePath
      → Result RetainedRetryQueue (RetryError E)
  unfolding overlay is_retryable
  retry_queue include_refused include_errored matcher lineage = do
    statuses ← overlay [] lineage
    let retryable_names =
          keys (filter (λ e. is_retryable include_refused include_errored (e.1)) statuses) in
        ok (record {
          task_names = filter (is_selected matcher) retryable_names;
          unresolved_tasks = length retryable_names;
          lineage = lineage;
        })

-- `retained_retry_task_roots`: `run` gives the roots of a job's `run.json`, `load` the name of the
-- task at a root.
module _ {E : Type 0} (run : FilePath → Result (List FilePath) E)
    (load : FilePath → Result String E) where
  add_roots : List String → Dict FilePath → List FilePath → Result (Dict FilePath) E
  add_roots selected roots [] = ok roots
  add_roots selected roots (root ∷ later) = do
    name ← load root
    add_roots selected (if any (λ s. str_eq s name) selected then insert name root roots else roots)
        later

  roots_of_jobs : List String → Dict FilePath → List FilePath → Result (Dict FilePath) E
  unfolding add_roots
  roots_of_jobs selected roots [] = ok roots
  roots_of_jobs selected roots (job ∷ jobs) = do
    tasks ← run job
    more ← add_roots selected roots tasks
    roots_of_jobs selected more jobs

  is_missing : Dict FilePath → String → Bool
  is_missing roots name = elim (lookup name roots) [ none ↦ true | some root ↦ false ]

  report_missing : Dict FilePath → List String → Result (List FilePath) (RetryError E)
  report_missing roots [] = ok (map (λ e. e.1) roots)
  report_missing roots (name ∷ names) = err (missing_definitions (name ∷ names))

  unfoldable pub retained_retry_task_roots :
      List FilePath → List String → Result (List FilePath) (RetryError E)
  unfolding roots_of_jobs is_missing report_missing
  retained_retry_task_roots lineage selected = do
    roots ← lift (roots_of_jobs selected [] lineage)
    report_missing roots (filter (is_missing roots) selected)
