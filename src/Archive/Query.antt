-- ===== src/Archive/Query.antt =====
-- `PublishedResults::query` of crates/nanoeval-harbor/src/published.rs: the passing attempts of a
-- task, the best of each submission first, with their trajectories. `B` is what is downloaded and
-- `T` a trajectory.
pub mod Laws
use nanoeval.Prelude.{
  ℕ, Bool, List, Option, Result, String, [], err, false, filter, if◌then◌else◌, is_present, length,
  map, none, not, ok, some, take, true, ◌&&◌, ◌>>=◌, ◌||◌,
}
use nanoeval.Prelude.StableSort.{sort_by, first_of_each}
use nanoeval.Prelude.Order.{text_order}
use nanoeval.Archive.{
  thinking, PublishedAgentInfo, PublishedQuery, PublishedRecord, Rewards, agent_matches, and_then,
  matches_checksum, resolved_agent_info, reward,
}

pub record PublishedTrial (Reward T : Type 0) : Type 0 where
  pub submission : String
  pub run : String
  pub trial_name : String
  pub task_name : String
  pub task_checksum : String
  pub reward_value : Reward
  pub agent : PublishedAgentInfo
  pub thinking : Option String
  pub agent_import_path : Option String
  pub result_path : String
  pub trajectory_path : Option String
  pub trajectory : Option T
  pub trajectory_error : Option String

pub record PublishedTask (Reward T : Type 0) : Type 0 where
  pub task : String
  pub requested_checksum : Option String
  pub archive_revision : String
  pub matching_results : ℕ
  pub passing_results : ℕ
  pub exact_passing_results : ℕ
  pub trials : List (PublishedTrial Reward T)

-- The download of an artifact, the parsers of a trajectory and of one that is wrapped, and the text
-- of an error.
pub record Artifacts (B T E : Type 0) : Type 0 where
  pub download : String → Result B E
  pub parse : B → Result T E
  pub parse_wrapped : B → Result T E
  pub error_text : E → String

-- `decode_published_trajectory`
unfoldable pub decode_published_trajectory : {B T E : Type 0} → Artifacts B T E → B → Result T E
decode_published_trajectory artifacts bytes = elim (artifacts.parse bytes) [
  | ok trajectory ↦ ok trajectory
  | err error ↦ artifacts.parse_wrapped bytes
]

-- the trajectory of a candidate, or why there is none
unfoldable pub fetch_trajectory :
    {B T E : Type 0} → Artifacts B T E → Option String → Option T × Option String
unfolding decode_published_trajectory
fetch_trajectory artifacts none = (none, none)
fetch_trajectory artifacts (some path) =
    elim (artifacts.download path >>= decode_published_trajectory artifacts) [
      | ok trajectory ↦ (some trajectory, none)
      | err error ↦ (none, some (artifacts.error_text error))
    ]

-- The order of the passing records: the revision that is asked for first, then those with a
-- trajectory, then by submission.
unfoldable pub ranks_before :
    {Reward : Type 0} → PublishedQuery → PublishedRecord Reward → PublishedRecord Reward → Bool
unfolding matches_checksum
ranks_before query left right =
    let left_exact = matches_checksum query left.result.task_checksum in
    let right_exact = matches_checksum query right.result.task_checksum in
    let left_traced = is_present left.candidate.trajectory in
    let right_traced = is_present right.candidate.trajectory in
    if left_exact && not right_exact
    then true
    else if right_exact && not left_exact
    then false
    else if left_traced && not right_traced
    then true
    else if right_traced && not left_traced
    then false
    else text_order.le left.candidate.submission right.candidate.submission

module _ {Reward : Type 0} (rewards : Rewards Reward) where
  -- the two `continue`s of `query`
  unfoldable pub is_passing : (String → String) → PublishedQuery → PublishedRecord Reward → Bool
  unfolding reward agent_matches
  is_passing lower query published =
      not (
        rewards.at_most_zero (reward rewards published.result)
        || is_present published.result.exception_info)
      && agent_matches lower query published.candidate.submission published.result

  unfoldable pub published_trial :
      {B T E : Type 0} → Artifacts B T E → PublishedRecord Reward → PublishedTrial Reward T
  unfolding fetch_trajectory reward resolved_agent_info thinking
  published_trial artifacts published =
      let (fetched, problem) = fetch_trajectory artifacts published.candidate.trajectory in
      record {
        submission = published.candidate.submission;
        run = published.candidate.run;
        trial_name = published.result.trial_name;
        task_name = published.result.task_name;
        task_checksum = published.result.task_checksum;
        reward_value = reward rewards published.result;
        agent = resolved_agent_info published.result;
        thinking = and_then published.result.config thinking;
        agent_import_path = and_then published.result.config (λ config. config.import_path);
        result_path = published.candidate.result;
        trajectory_path = published.candidate.trajectory;
        trajectory = fetched;
        trajectory_error = problem;
      }

  -- the records that are shown
  unfoldable pub selected_records :
      PublishedQuery → List (PublishedRecord Reward) → List (PublishedRecord Reward)
  unfolding sort_by first_of_each ranks_before
  selected_records query passing = take query.limit (
      first_of_each (λ published. published.candidate.submission) []
        (sort_by (ranks_before query) passing))

  -- `PublishedResults::query`, over what `load_query_records` gives
  unfoldable pub query_archive :
      {B T E : Type 0}
      → (String → String)
      → Artifacts B T E
      → PublishedQuery
      → Result (String × List (PublishedRecord Reward)) E
      → Result (PublishedTask Reward T) E
  unfolding is_passing published_trial selected_records matches_checksum
  query_archive lower artifacts query loaded = do
    (revision, records) ← loaded
    let passing = filter (is_passing lower query) records in
        ok (record {
          task = query.task;
          requested_checksum = query.checksum;
          archive_revision = revision;
          matching_results = length records;
          passing_results = length passing;
          exact_passing_results =
              length (
                filter (λ published. matches_checksum query published.result.task_checksum)
                  passing);
          trials = map (published_trial artifacts) (selected_records query passing);
        })
