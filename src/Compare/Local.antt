-- ===== src/Compare/Local.antt =====
-- `LocalJob` of bin/nanoeval/src/compare.rs: the trials of a retained job, read directory by
-- directory. What a directory holds is a value here.
pub mod Counts
use nanoeval.Prelude.{
  ℕ, Bool, List, Option, Result, String, [], err, false, if◌then◌else◌, length, map_ok, none, not,
  ok, some, str_eq, true, ◌&&◌, ◌++◌, ◌+◌, ◌>>=◌, ◌∷◌, is_present,
}
use nanoeval.Prelude.Paths.{FilePath}
use nanoeval.Prelude.Dict.{Dict, insert, lookup}
use nanoeval.Prelude.Order.{text_order}
use nanoeval.Prelude.Sets.{insert_member, agent_order, AgentKey}
use nanoeval.Compare.{
  lift, CompareError, TaskScore, count, event_kind, incomplete_job, no_completed_trials, or_insert,
  other, scored, several_agents, several_checksums, unscored,
}

pub record LocalAgentInfo : Type 0 where
  pub name : String
  pub version : Option String
  pub model_info : Option String

pub record LocalAgentKwargs : Type 0 where
  pub effort : Option String
  pub reasoning_effort : Option String

pub record LocalTrial (Reward : Type 0) : Type 0 where
  pub trial_name : String
  pub task_name : String
  pub task_checksum : String
  pub agent_info : LocalAgentInfo
  pub config : Option LocalAgentKwargs
  pub verifier_result : Option (Dict Reward)
  pub exception_info : Option String

pub record LocalAttempt : Type 0 where
  pub directory : FilePath
  pub trial_name : String
  pub passed : Bool
  pub configured_thinking : Option String
  pub observed_thinking : Option String

pub record LocalJob : Type 0 where
  pub agent : String
  pub agent_version : Option String
  pub model : String
  pub thinking_configured : List String
  pub thinking_observed : List String
  pub thinking_observed_trials : ℕ
  pub tasks : Dict TaskScore
  pub trials : Dict (List LocalAttempt)

pub record LocalJobLoader : Type 0 where
  pub tasks : Dict TaskScore
  pub trials : Dict (List LocalAttempt)
  pub agents : List AgentKey
  pub thinking_configured : List String
  pub thinking_observed : List String
  pub thinking_observed_trials : ℕ

-- A line of `agent/events.jsonl`: what it reads as an `EventKind`, and as a `RunStartedEvent`, its
-- kind and its effort.
pub record EventLine (E : Type 0) : Type 0 where
  pub kind : Result String E
  pub started : Result (String × String) E

-- An entry of the job's directory. The result and the events are `none` where there is no file.
pub record TrialDirectory (Reward E : Type 0) : Type 0 where
  pub path : FilePath
  pub is_dir : Result Bool E
  pub result : Result (Option (Result (LocalTrial Reward) E)) E
  pub events : Result (Option (List (Result (EventLine E) E))) E
  pub has_trajectory : Bool

module _ {E : Type 0} where
  -- the loop of `load_observed_thinking`
  unfoldable pub first_started :
      List (Result (EventLine E) E) → Result (Option String) (CompareError E)
  first_started [] = ok none
  first_started (err error ∷ lines) = err (other error)
  first_started (ok line ∷ lines) =
      let rest = first_started lines in
      elim line.kind [
        | err error ↦ err (other error)
        | ok kind ↦ if not (str_eq kind "run.started") then rest else elim line.started [
          | err error ↦ err (other error)
          | ok event ↦
              if not (str_eq event.0 "run.started")
              then err (event_kind event.0)
              else ok (some event.1)
        ]
      ]

  unfoldable pub load_observed_thinking :
      Result (Option (List (Result (EventLine E) E))) E → Result (Option String) (CompareError E)
  unfolding first_started
  load_observed_thinking (err error) = err (other error)
  load_observed_thinking (ok none) = ok none
  load_observed_thinking (ok (some lines)) = first_started lines

-- `insert` of the value that there may be
abbrev pub insert_some : Option String → List String → List String
insert_some none members = members
insert_some (some member) members = insert_member text_order member members

unfoldable pub configured_thinking_of : {Reward : Type 0} → LocalTrial Reward → Option String
configured_thinking_of trial = elim trial.config [
  | none ↦ none
  | some kwargs ↦ elim kwargs.effort [ some effort ↦ some effort | none ↦ kwargs.reasoning_effort ]
]

-- the key of a trial's agent
abbrev pub agent_of : {Reward : Type 0} → LocalTrial Reward → AgentKey
agent_of trial =
    let info = trial.agent_info in
    (info.name, info.version, elim info.model_info [ none ↦ "unknown" | some model ↦ model ])

-- `LocalJobLoader::default`
abbrev pub empty_loader : LocalJobLoader
empty_loader = record {
  tasks = [];
  trials = [];
  agents = [];
  thinking_configured = [];
  thinking_observed = [];
  thinking_observed_trials = 0;
}

module _ {Reward E : Type 0} where
  -- `load_local_trial`
  unfoldable pub load_local_trial : TrialDirectory Reward E → Result (Option (LocalTrial Reward)) E
  load_local_trial directory = do
    found ← directory.result
    elim found [ none ↦ ok none | some decoded ↦ map_ok some decoded ]

  -- the trial of an entry, if the entry is a directory with a result
  unfoldable pub trial_of :
      Result (TrialDirectory Reward E) E
      → Result (Option (TrialDirectory Reward E × LocalTrial Reward)) E
  unfolding load_local_trial
  trial_of entry = do
    directory ← entry
    is_dir ← directory.is_dir
    if is_dir
        then map_ok (λ found. elim found [ none ↦ none | some trial ↦ some (directory, trial) ])
            (load_local_trial directory)
        else ok none

-- `LocalJobLoader::finish`
unfoldable pub finish : {E : Type 0} → LocalJobLoader → Result LocalJob (CompareError E)
finish loader = elim loader.tasks [
  | [] ↦ err no_completed_trials
  | first ∷ later ↦ elim loader.agents [
    | (agent, agent_version, model) ∷ [] ↦ ok (record {
      agent = agent;
      agent_version = agent_version;
      model = model;
      thinking_configured = loader.thinking_configured;
      thinking_observed = loader.thinking_observed;
      thinking_observed_trials = loader.thinking_observed_trials;
      tasks = loader.tasks;
      trials = loader.trials;
    })
    | several ↦ err (several_agents (length several))
  ]
]

module _ {Reward : Type 0} (positive : Reward → Bool) where
  unfoldable pub is_passed : LocalTrial Reward → Bool
  unfolding lookup
  is_passed trial = not (is_present trial.exception_info) && elim trial.verifier_result [
    | none ↦ false
    | some rewards ↦ elim (lookup "reward" rewards) [ none ↦ false | some reward ↦ positive reward ]
  ]

  -- The attempt that is kept, and the score of its task with it.
  abbrev pub attempt_of :
      {E : Type 0} → TrialDirectory Reward E → LocalTrial Reward → Option String → LocalAttempt
  attempt_of directory trial observed = record {
    directory = directory.path;
    trial_name = trial.trial_name;
    passed = is_passed trial;
    configured_thinking = configured_thinking_of trial;
    observed_thinking = observed;
  }

  abbrev pub score_of :
      {E : Type 0} → Dict TaskScore → TrialDirectory Reward E → LocalTrial Reward → TaskScore
  score_of tasks directory trial =
      scored
        (or_insert (lookup trial.task_name tasks) (unscored trial.task_name trial.task_checksum))
        (is_passed trial) (is_present trial.exception_info) directory.has_trajectory

  -- the loader with one more trial
  abbrev pub recorded :
      {E : Type 0}
      → LocalJobLoader
      → TrialDirectory Reward E
      → LocalTrial Reward
      → Option String
      → LocalJobLoader
  recorded loader directory trial observed = record {
    tasks = insert trial.task_name (score_of loader.tasks directory trial) loader.tasks;
    trials =
        insert trial.task_name
          (or_insert (lookup trial.task_name loader.trials) []
            ++ attempt_of directory trial observed ∷ [])
          loader.trials;
    agents = insert_member agent_order (agent_of trial) loader.agents;
    thinking_configured = insert_some (configured_thinking_of trial) loader.thinking_configured;
    thinking_observed = insert_some observed loader.thinking_observed;
    thinking_observed_trials = loader.thinking_observed_trials + count (is_present observed);
  }

  module _ {E : Type 0} where
    -- `LocalJobLoader::record`
    unfoldable pub record_trial :
        LocalJobLoader
        → TrialDirectory Reward E
        → LocalTrial Reward
        → Result LocalJobLoader (CompareError E)
    unfolding load_observed_thinking
    record_trial loader directory trial = do
      observed ← load_observed_thinking directory.events
      if str_eq (score_of loader.tasks directory trial).task_checksum trial.task_checksum
          then ok (recorded loader directory trial observed)
          else err (several_checksums trial.task_name)

    -- the loop of `LocalJob::load`
    unfoldable pub load_trials :
        LocalJobLoader
        → List (Result (TrialDirectory Reward E) E)
        → Result LocalJobLoader (CompareError E)
    unfolding record_trial trial_of
    load_trials loader [] = ok loader
    load_trials loader (entry ∷ entries) = do
      found ← lift (trial_of entry)
      more ← elim found [ none ↦ ok loader | some pair ↦ record_trial loader (pair.0) (pair.1) ]
      load_trials more entries

    -- `LocalJob::load`; the Boolean says whether the job has a `result.json`.
    unfoldable pub load_job :
        Bool
        → Result (List (Result (TrialDirectory Reward E) E)) E
        → Result LocalJob (CompareError E)
    unfolding load_trials finish
    load_job false listing = err incomplete_job
    load_job true listing = do
      entries ← lift listing
      loader ← load_trials empty_loader entries
      finish loader
