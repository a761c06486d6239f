-- ===== src/Archive/Tests.antt =====
-- An archive with two submissions, and servers that answer.
use nanoeval.Prelude.Dict.{lookup}
use nanoeval.Prelude.StableSort.{first_of_each, sort_by}
use nanoeval.Prelude.{
  ℕ, List, Result, String, [], err, if◌then◌else◌, length, ltb, map, none, ok, refl, some, ◌==◌,
  ◌∷◌, ◌≡◌, ◌≤◌, Option,
}
use nanoeval.Prelude.Distinct.{IsDistinct}
use nanoeval.Archive.{
  PublishedQuery, PublishedRecord, Rewards, agent_matches, matches_checksum, resolved_agent_info,
  reward, thinking,
}
use nanoeval.Archive.Query.{
  query_archive, Artifacts, PublishedTask, fetch_trajectory, is_passing, published_trial,
  ranks_before, selected_records,
}
use nanoeval.Archive.Query.Laws.{query_archive-IsSelection, IsShown}
use nanoeval.Archive.Download.{
  download, Response, accept_response, is_transient, pause, send_with_retries, check_size,
  check_status,
}
use nanoeval.Archive.Download.Laws.{download-IsDownloaded, IsDownloaded}
use nanoeval.Prelude.Order.{lex}
use mathlib.Core.List.{Memᴰ}

abbrev natural_rewards : Rewards ℕ
natural_rewards = record { nothing = 0; above_zero = λ n. ltb 0 n; at_most_zero = λ n. n == 0 }

abbrev unchanged : String → String
unchanged text = text

abbrev result_of : String → String → ℕ → PublishedRecord ℕ
result_of submission checksum n = record {
  candidate = record {
    submission = submission;
    run = "run";
    result = "result.json";
    trajectory = none;
  };
  result = record {
    task_name = "task";
    task_checksum = checksum;
    trial_name = "task__1";
    agent_info = record { name = "agent"; version = none; model_info = none };
    config = none;
    verifier_result = some (("reward", n) ∷ []);
    exception_info = none;
  };
}

abbrev archive_records : List (PublishedRecord ℕ)
archive_records = result_of "b" "old" 1 ∷ result_of "a" "old" 0 ∷ result_of "b" "new" 1 ∷ []

abbrev new_only : PublishedQuery
new_only = record { task = "task"; checksum = some "new"; limit = 1; agents = [] }

abbrev no_artifacts : Artifacts String String String
no_artifacts = record {
  download = λ path. err "unavailable";
  parse = λ bytes. ok bytes;
  parse_wrapped = λ bytes. ok bytes;
  error_text = λ error. error;
}

abbrev one_shown : PublishedTask ℕ String
one_shown = record {
  task = "task";
  requested_checksum = some "new";
  archive_revision = "head";
  matching_results = 3;
  passing_results = 2;
  exact_passing_results = 1;
  trials =
      record {
        submission = "b";
        run = "run";
        trial_name = "task__1";
        task_name = "task";
        task_checksum = "new";
        reward_value = 1;
        agent = record { name = "agent"; version = none; model_info = none };
        thinking = none;
        agent_import_path = none;
        result_path = "result.json";
        trajectory_path = none;
        trajectory = none;
        trajectory_error = none;
      }
      ∷ [];
}

archive_queried :
    query_archive natural_rewards unchanged no_artifacts new_only (ok ("head", archive_records))
    ≡ ok one_shown
unfolding query_archive is_passing published_trial selected_records matches_checksum sort_by
    first_of_each ranks_before reward agent_matches fetch_trajectory resolved_agent_info thinking
    lookup lex
archive_queried = refl

query_archive-IsSelection_example :
    (selected : List (PublishedRecord ℕ)) × (one_shown.trials
      ≡ map (published_trial natural_rewards no_artifacts) selected)
    × (length selected ≤ 1)
    × IsDistinct (λ published. published.candidate.submission) selected
    × ((shown : PublishedRecord ℕ)
        → Memᴰ shown selected
        → IsShown natural_rewards unchanged new_only archive_records shown)
    × (1 ≤ 2)
    × (2 ≤ 3)
query_archive-IsSelection_example =
    query_archive-IsSelection natural_rewards unchanged new_only no_artifacts "head" archive_records
      one_shown archive_queried

-- a server that answers after one error
abbrev answer_with : ℕ → Response String String
answer_with status_code = record {
  status_code = status_code;
  retry_after = none;
  content_length = none;
  bytes = ok "body";
}

abbrev recovering : ℕ → Result (Response String String) String
recovering n = ok (if n == 0 then answer_with 503 else answer_with 200)

-- a server that never recovers
abbrev failing : ℕ → Result (Response String String) String
failing n = ok (answer_with 503)

abbrev byte_count : String → ℕ
byte_count text = 4

abbrev one_pause : List ℕ
one_pause = 250 ∷ []

recovered : send_with_retries recovering 8 0 [] ≡ some (ok (answer_with 200, one_pause))
unfolding send_with_retries is_transient pause
recovered = refl

abbrev stored_well : Result (Unit {0}) String
stored_well = ok tt

accepted : accept_response byte_count (answer_with 200) (ok tt) ≡ ok "body"
unfolding accept_response check_status check_size
accepted = refl

abbrev nothing_cached : Option (Result String String)
nothing_cached = none

recovered_bytes : download byte_count none recovering stored_well ≡ some (ok "body")
unfolding download send_with_retries is_transient pause accept_response check_status check_size
recovered_bytes = refl

download-IsDownloaded_example :
    IsDownloaded byte_count nothing_cached stored_well
      (download byte_count nothing_cached failing stored_well)
download-IsDownloaded_example = download-IsDownloaded byte_count nothing_cached failing stored_well
