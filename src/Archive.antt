-- ===== src/Archive.antt =====
-- The reader of published results, crates/nanoeval-harbor/src/published.rs. `Reward` is the type of
-- a reward, `lower` is `to_lowercase`, and what is read from the archive is a value.
pub mod Query
pub mod Download
mod Tests
use nanoeval.Errors.{is_some_and, verifier}
use nanoeval.Prelude.{
  ℕ, Bool, List, Option, Result, String, [], any, contains, filter, is_present, map, none, not, ok,
  some, str_eq, strip_prefix, ◌&&◌, ◌++◌, ◌>>=◌, ◌||◌, ◌∷◌, false, true,
}
use nanoeval.Prelude.Dict.{Dict, lookup}

pub record PublishedModelInfo : Type 0 where
  pub name : String
  pub provider : Option String

pub record PublishedAgentInfo : Type 0 where
  pub name : String
  pub version : Option String
  pub model_info : Option PublishedModelInfo

pub record PublishedAgentKwargs : Type 0 where
  pub effort : Option String
  pub reasoning_effort : Option String

-- `PublishedTrialConfig`, which has only its agent
pub record PublishedAgentConfig : Type 0 where
  pub model_name : Option String
  pub import_path : Option String
  pub kwargs : PublishedAgentKwargs

pub record PublishedResult (Reward : Type 0) : Type 0 where
  pub task_name : String
  pub task_checksum : String
  pub trial_name : String
  pub agent_info : PublishedAgentInfo
  pub config : Option PublishedAgentConfig
  pub verifier_result : Option (Dict Reward)
  pub exception_info : Option String

pub record PublishedPath : Type 0 where
  pub submission : String
  pub run : String
  pub result : String
  pub trajectory : Option String

pub record PublishedRecord (Reward : Type 0) : Type 0 where
  pub candidate : PublishedPath
  pub result : PublishedResult Reward

pub record PublishedQuery : Type 0 where
  pub task : String
  pub checksum : Option String
  pub limit : ℕ
  pub agents : List String

pub record PublishedAttempt : Type 0 where
  pub submission : String
  pub run : String
  pub task_name : String
  pub task_checksum : String
  pub trial_name : String
  pub passed : Bool
  pub errored : Bool
  pub agent : PublishedAgentInfo
  pub thinking : Option String
  pub agent_import_path : Option String
  pub result_path : String
  pub trajectory_path : Option String

pub record PublishedAttempts : Type 0 where
  pub task : String
  pub requested_checksum : Option String
  pub archive_revision : String
  pub attempts : List PublishedAttempt

-- 0 and the two comparisons with 0
pub record Rewards (Reward : Type 0) : Type 0 where
  pub nothing : Reward
  pub above_zero : Reward → Bool
  pub at_most_zero : Reward → Bool

-- `Option::or_else`
abbrev pub or_some : {A : Type 0} → Option A → Option A → Option A
or_some (some a) later = some a
or_some none later = later

-- `and_then`
abbrev pub and_then : {A B : Type 0} → Option A → (A → Option B) → Option B
and_then none f = none
and_then (some a) f = f a

-- `PublishedTrialConfig::thinking`
unfoldable pub thinking : PublishedAgentConfig → Option String
thinking config = or_some config.kwargs.effort config.kwargs.reasoning_effort

-- `PublishedQuery::new`
unfoldable pub new_query : String → PublishedQuery
new_query task = record {
  task = elim (strip_prefix task "terminal-bench/") [ some rest ↦ rest | none ↦ task ];
  checksum = none;
  limit = 10;
  agents = [];
}

-- the setters of a query
unfoldable pub with_checksum : PublishedQuery → String → PublishedQuery
with_checksum query checksum = record query { checksum = some checksum }

unfoldable pub with_limit : PublishedQuery → ℕ → PublishedQuery
with_limit query limit = record query { limit = limit }

unfoldable pub with_agent : PublishedQuery → String → PublishedQuery
with_agent query agent_name = record query { agents = query.agents ++ agent_name ∷ [] }

unfoldable pub matches_checksum : PublishedQuery → String → Bool
matches_checksum query checksum = is_some_and query.checksum (λ expected. str_eq checksum expected)

unfoldable pub resolved_agent_info : {Reward : Type 0} → PublishedResult Reward → PublishedAgentInfo
resolved_agent_info result = elim result.agent_info.model_info [
  | some model ↦ result.agent_info
  | none ↦ elim (and_then result.config (λ config. config.model_name)) [
    | none ↦ result.agent_info
    | some model ↦ record result.agent_info {
      model_info = some (record {
        name = elim (strip_prefix model "openai/") [ some rest ↦ rest | none ↦ model ];
        provider = none;
      });
    }
  ]
]

-- `is_empty`
abbrev pub is_none_listed : List String → Bool
is_none_listed [] = true
is_none_listed (agent_name ∷ later) = false

module _ (lower : String → String) where
  -- `PublishedTrialConfig::agent_matches`
  unfoldable pub config_matches : PublishedAgentConfig → String → Bool
  config_matches config needle =
      is_some_and config.model_name (λ model. contains (lower model) needle)
      || is_some_and config.import_path (λ path. contains (lower path) needle)

  -- what one needle of `agent_matches` matches
  unfoldable pub needle_matches :
      {Reward : Type 0} → String → PublishedResult Reward → String → Bool
  unfolding config_matches
  needle_matches submission result needle =
      contains (lower submission) needle
      || contains (lower result.agent_info.name) needle
      || is_some_and result.agent_info.model_info (λ model. contains (lower model.name) needle)
      || is_some_and result.config (λ config. config_matches config needle)

  -- `PublishedQuery::agent_matches`
  unfoldable pub agent_matches :
      {Reward : Type 0} → PublishedQuery → String → PublishedResult Reward → Bool
  unfolding needle_matches
  agent_matches query submission result =
      is_none_listed query.agents
      || any (λ needle. needle_matches submission result (lower needle)) query.agents

module _ {Reward : Type 0} (rewards : Rewards Reward) where
  open rewards use {nothing, above_zero}

  -- `PublishedResult::reward`
  unfoldable pub reward : PublishedResult Reward → Reward
  unfolding lookup
  reward result = elim (and_then result.verifier_result (λ verifier. lookup "reward" verifier)) [
    | some value ↦ value
    | none ↦ nothing
  ]

  -- the `map` of `attempts`
  unfoldable pub attempt_of : PublishedRecord Reward → PublishedAttempt
  unfolding reward thinking resolved_agent_info
  attempt_of published = record {
    submission = published.candidate.submission;
    run = published.candidate.run;
    task_name = published.result.task_name;
    task_checksum = published.result.task_checksum;
    trial_name = published.result.trial_name;
    passed =
        not (is_present published.result.exception_info) && above_zero (reward published.result);
    errored = is_present published.result.exception_info;
    agent = resolved_agent_info published.result;
    thinking = and_then published.result.config thinking;
    agent_import_path = and_then published.result.config (λ config. config.import_path);
    result_path = published.candidate.result;
    trajectory_path = published.candidate.trajectory;
  }

  -- `PublishedResults::attempts`, over what `load_query_records` gives
  unfoldable pub attempts :
      {E : Type 0}
      → (String → String)
      → PublishedQuery
      → Result (String × List (PublishedRecord Reward)) E
      → Result PublishedAttempts E
  unfolding attempt_of agent_matches
  attempts lower query loaded = do
    (revision, records) ← loaded
    ok (record {
      task = query.task;
      requested_checksum = query.checksum;
      archive_revision = revision;
      attempts = map attempt_of (
          filter
            (λ published. agent_matches lower query published.candidate.submission published.result)
            records);
    })
