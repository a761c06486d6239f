-- ===== src/Harbor/Stats.antt =====
-- The statistics of a job's results file, of crates/nanoeval-harbor/src/lib.rs.
use nanoeval.Prelude.Dict.Totals.{sum_of}
use Prim.Native.String.{◌++◌ as append_text}
use nanoeval.Prelude.{
  Bool, List, Option, String, [], false, if◌then◌else◌, length, ltb, max, none, some, true, ℕ, ◌&&◌,
  ◌+◌, ◌-◌, ◌==◌, ◌∷◌, ◌++◌,
}
use nanoeval.Prelude.Dict.{Dict, insert}
use nanoeval.Harbor.{
  HarborAgentDatasetStats, HarborJobDelta, HarborJobResult, HarborJobStats, TrialFailure,
  TrialResult, change_entry, get_or_else,
}

-- `entry(key).or_default().extend(trials)` of each entry
unfoldable pub extend_entries : Dict (List String) → Dict (List String) → Dict (List String)
extend_entries [] retained = retained
extend_entries ((name, trials) ∷ later) retained =
    extend_entries later (change_entry [] name (λ names. names ++ trials) retained)

abbrev pub push_name : String → String → Dict (List String) → Dict (List String)
push_name key trial_name m = change_entry [] key (λ names. names ++ trial_name ∷ []) m

-- the loop over the rewards of one result
unfoldable pub add_rewards :
    String → Dict String → Dict (Dict (List String)) → Dict (Dict (List String))
add_rewards trial_name [] stats = stats
add_rewards trial_name ((name, reward) ∷ later) stats =
    add_rewards trial_name later (change_entry [] name (push_name reward trial_name) stats)

unfoldable pub reward_stats_of :
    {F : Type 0} → List (TrialResult F) → Dict (Dict (List String)) → Dict (Dict (List String))
unfolding add_rewards
reward_stats_of [] stats = stats
reward_stats_of (result ∷ results) stats =
    reward_stats_of results (add_rewards result.trial_name result.rewards stats)

unfoldable pub exception_stats_of : List TrialFailure → Dict (List String) → Dict (List String)
exception_stats_of [] stats = stats
exception_stats_of (failure ∷ failures) stats =
    exception_stats_of failures (push_name failure.exception_type failure.trial_name stats)

abbrev pub first_model : {F : Type 0} → List (TrialResult F) → List TrialFailure → Option String
first_model (result ∷ results) failures = some result.model
first_model [] (failure ∷ failures) = some failure.model
first_model [] [] = none

abbrev pub empty_eval : {F : Type 0} → HarborAgentDatasetStats F
empty_eval = record {
  n_trials = 0;
  n_errors = 0;
  pass_at_k = [];
  reward_stats = [];
  exception_stats = [];
}

abbrev pub empty_stats : {F : Type 0} → HarborJobStats F
empty_stats = record {
  n_completed_trials = 0;
  n_errored_trials = 0;
  n_running_trials = 0;
  n_pending_trials = 0;
  n_cancelled_trials = 0;
  n_retries = 0;
  evals = [];
  n_input_tokens = 0;
  n_cache_tokens = 0;
  n_output_tokens = 0;
  cost_usd = none;
}

module _ {F : Type 0} (add : F → F → F) (zero_cost : F) where
  -- `filter_map(cost_usd).reduce(..)`, from the sum so far
  abbrev pub sum_costs : Option F → List (TrialResult F) → Option F
  sum_costs sum [] = sum
  sum_costs sum (result ∷ results) =
      sum_costs
        (elim result.cost_usd [
          | none ↦ sum
          | some cost ↦ some (elim sum [ none ↦ cost | some so_far ↦ add so_far cost ])
        ])
        results

  -- `HarborJobDelta::new`
  unfoldable pub new_delta : List (TrialResult F) → List TrialFailure → HarborJobDelta F
  unfolding reward_stats_of exception_stats_of
  new_delta results failures = record {
    eval_key = elim (first_model results failures) [
      | none ↦ none
      | some model ↦ some (append_text (append_text "nanocodex__" model) "__nanoeval/local")
    ];
    eval_stats = record empty_eval {
      n_trials = length results;
      n_errors = length failures;
      reward_stats = reward_stats_of results [];
      exception_stats = exception_stats_of failures [];
    };
    input_tokens = sum_of (λ r. r.input_tokens) results;
    cached_tokens = sum_of (λ r. r.cached_input_tokens) results;
    output_tokens = sum_of (λ r. r.output_tokens) results;
    cost_usd = sum_costs none results;
  }

  abbrev pub merge_rewards :
      Dict (Dict (List String)) → Dict (Dict (List String)) → Dict (Dict (List String))
  merge_rewards [] retained = retained
  merge_rewards ((metric, rewards) ∷ later) retained =
      merge_rewards later (change_entry [] metric (extend_entries rewards) retained)

  -- `HarborAgentDatasetStats::merge_into`
  unfoldable pub merge_into :
      HarborAgentDatasetStats F → HarborAgentDatasetStats F → HarborAgentDatasetStats F
  unfolding extend_entries
  merge_into self retained = record retained {
    n_trials = retained.n_trials + self.n_trials;
    n_errors = retained.n_errors + self.n_errors;
    reward_stats = merge_rewards self.reward_stats retained.reward_stats;
    exception_stats = extend_entries self.exception_stats retained.exception_stats;
  }

  abbrev pub has_evals : Dict (HarborAgentDatasetStats F) → Bool
  has_evals [] = false
  has_evals (eval ∷ evals) = true

  unfoldable pub apply_evals :
      HarborJobDelta F → Dict (HarborAgentDatasetStats F) → Dict (HarborAgentDatasetStats F)
  unfolding merge_into
  apply_evals delta evals = elim delta.eval_key [
    | some eval_key ↦ change_entry empty_eval eval_key (merge_into delta.eval_stats) evals
    | none ↦
        if has_evals evals then evals else insert "nanocodex__nanoeval/local" delta.eval_stats evals
  ]

  -- `HarborJobDelta::apply`
  unfoldable pub apply_delta : HarborJobDelta F → HarborJobStats F → HarborJobStats F
  unfolding apply_evals
  apply_delta delta stats = record stats {
    evals = apply_evals delta stats.evals;
    n_completed_trials =
        stats.n_completed_trials + (delta.eval_stats.n_trials + delta.eval_stats.n_errors);
    n_errored_trials = stats.n_errored_trials + delta.eval_stats.n_errors;
    n_input_tokens = stats.n_input_tokens + delta.input_tokens;
    n_cache_tokens = stats.n_cache_tokens + delta.cached_tokens;
    n_output_tokens = stats.n_output_tokens + delta.output_tokens;
    cost_usd = elim delta.cost_usd [
      | none ↦ stats.cost_usd
      | some cost ↦ some (add (get_or_else stats.cost_usd zero_cost) cost)
    ];
  }

  abbrev pub clear_passes : Dict (HarborAgentDatasetStats F) → Dict (HarborAgentDatasetStats F)
  clear_passes [] = []
  clear_passes ((key, eval) ∷ later) = (key, record eval { pass_at_k = [] }) ∷ clear_passes later

  unfoldable pub set_passes :
      Dict (List (ℕ × F)) → Dict (HarborAgentDatasetStats F) → Dict (HarborAgentDatasetStats F)
  set_passes [] evals = evals
  set_passes ((key, passes) ∷ later) evals =
      set_passes later
        (change_entry empty_eval key (λ eval. record eval { pass_at_k = passes }) evals)

  -- What a recorder knows of its job: the results file that it found, and the number of planned
  -- attempts.
  pub record HarborArtifacts (Time : Type 0) : Type 0 where
    pub job_id : String
    pub started_at : Time
    pub baseline : Option (HarborJobResult F Time)
    pub planned_attempts : Option ℕ

  module _ {Time : Type 0} where
    -- the statistics before the number of pending trials is known
    unfoldable pub new_stats :
        HarborArtifacts Time
        → Dict (List (ℕ × F))
        → List (TrialResult F)
        → List TrialFailure
        → HarborJobStats F
    unfolding new_delta apply_delta set_passes
    new_stats self pass_at_k results failures =
        let start : HarborJobStats F = elim self.baseline [
          | none ↦ empty_stats
          | some job ↦ job.stats
        ] in
        let stats = apply_delta (new_delta results failures) start in
        record stats { evals = set_passes pass_at_k (clear_passes stats.evals) }

    -- The file that `write_job` writes; `pass_at_k` is what `compute_harbor_pass_at_k` gives.
    unfoldable pub job_file :
        HarborArtifacts Time
        → Time
        → Dict (List (ℕ × F))
        → List (TrialResult F)
        → List TrialFailure
        → ℕ
        → HarborJobResult F Time
    unfolding new_stats
    job_file self now pass_at_k results failures trials =
        let stats = new_stats self pass_at_k results failures in
        let baseline_total : ℕ = elim self.baseline [ none ↦ 0 | some job ↦ job.n_total_trials ] in
        let n_total_trials =
          max (max (max trials (get_or_else self.planned_attempts 0)) baseline_total)
            stats.n_completed_trials in
        record {
          id = self.job_id;
          started_at = elim self.baseline [ none ↦ self.started_at | some job ↦ job.started_at ];
          updated_at = now;
          finished_at =
              if ltb 0 n_total_trials && stats.n_completed_trials == n_total_trials
              then some now
              else none;
          n_total_trials = n_total_trials;
          stats = record stats { n_pending_trials = n_total_trials - stats.n_completed_trials };
        }
