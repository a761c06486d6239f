-- ===== src/Compare/Show.antt =====
-- `--show` in bin/nanoeval/src/compare.rs: the submission that a selector names, and the metrics of a
-- trajectory. `lower` is `to_lowercase`.
use nanoeval.Prelude.{
  ℕ, Bool, List, List-cases, Option, Result, String, [], any, contains, err, filter, flat_map, inl,
  inr, length, map, ok, some, str_eq, true, ◌∙◌, ◌∷◌, ◌≡◌,
}
use nanoeval.Prelude.Order.{text_order}
use nanoeval.Prelude.Members.{Memᴰ-map_from, Memᴰ-filter_from}
use nanoeval.Prelude.Sets.{collect_members, collect_members-Memᴰ}
use nanoeval.Archive.{PublishedAttempt, PublishedAttempts, and_then}
use nanoeval.Compare.{CompareError, show_ambiguous, show_unmatched}
use nanoeval.Compare.Published.{present}
use mathlib.Core.List.{Memᴰ}

-- what a selector is looked for in
unfoldable pub shown_texts : PublishedAttempt → List String
shown_texts attempt = present (
    some attempt.submission
    ∷ some attempt.agent.name
    ∷ attempt.agent.version
    ∷ and_then attempt.agent.model_info (λ model. some model.name)
    ∷ and_then attempt.agent.model_info (λ model. model.provider)
    ∷ attempt.agent_import_path
    ∷ [])

module _ (lower : String → String) where
  unfoldable pub is_shown_by : String → PublishedAttempt → Bool
  unfolding shown_texts
  is_shown_by selector attempt =
      any (λ text. contains (lower text) (lower selector)) (shown_texts attempt)

  unfoldable pub shown_submissions : List PublishedAttempts → String → List String
  unfolding is_shown_by
  shown_submissions tasks selector = collect_members text_order (
      map (λ attempt. attempt.submission)
        (filter (is_shown_by selector) (flat_map (λ task. task.attempts) tasks)))

  -- `resolve_show_selector`
  unfoldable pub resolve_show_selector :
      {E : Type 0} → List PublishedAttempts → String → Result String (CompareError E)
  unfolding shown_submissions
  resolve_show_selector tasks selector = elim (shown_submissions tasks selector) [
    | [] ↦ err (show_unmatched selector)
    | submission ∷ [] ↦ ok submission
    | several ↦ err (show_ambiguous selector several)
  ]

  only_member : (a b : String) → Memᴰ a (b ∷ []) → a ≡ b
  only_member a b (Memᴰ.head e) = e
  only_member a b (Memᴰ.tail m) = elim m [ ]

  -- A selector that is resolved names the submission of every published attempt that it matches.
  pub resolve_show_selector-eq-ok :
      {E : Type 0} (tasks : List PublishedAttempts) (selector submission : String)
      → resolve_show_selector {E = E} tasks selector ≡ ok submission
      → (attempt : PublishedAttempt) → Memᴰ attempt (flat_map (λ task. task.attempts) tasks)
      → is_shown_by selector attempt ≡ true
      → attempt.submission ≡ submission
  unfolding shown_submissions resolve_show_selector
  resolve_show_selector-eq-ok tasks selector submission h attempt m shown =
      let attempts = flat_map (λ (task : PublishedAttempts). task.attempts) tasks in
      let listed : Memᴰ attempt.submission (shown_submissions tasks selector) =
        collect_members-Memᴰ text_order attempt.submission
          (map (λ a. a.submission) (filter (is_shown_by selector) attempts))
          (Memᴰ-map_from (λ a. a.submission) attempt (filter (is_shown_by selector) attempts)
            (Memᴰ-filter_from (is_shown_by selector) attempt attempts m shown)) in
      elim (List-cases (shown_submissions tasks selector)) [
        | inl nothing ↦ absurd (cc (rw (resolve_show_selector, nothing) at h))
        | inr (first, another ∷ more, several) ↦
            absurd (cc (rw (resolve_show_selector, several) at h))
        | inr (first, [], one) ↦
            let value : first ≡ submission = cc (rw (resolve_show_selector, one) at h) in
            only_member attempt.submission first (rw one at listed) ∙ value
      ]

-- The parts of a `PublishedTrajectory` that the metrics read.
pub record PublishedToolCall : Type 0 where
  pub tool_call_id : Option String
  pub function_name : String

pub record PublishedStep : Type 0 where
  pub source : String
  pub message : Option String
  pub tool_calls : List PublishedToolCall

pub record TrajectoryMetrics : Type 0 where
  pub steps : ℕ
  pub agent_turns : ℕ
  pub tool_calls : ℕ
  pub tools : List String

-- `TrajectoryMetrics::new`
unfoldable pub trajectory_metrics : List PublishedStep → TrajectoryMetrics
trajectory_metrics trajectory =
    let calls = flat_map (λ step. step.tool_calls) trajectory in
    record {
      steps = length trajectory;
      agent_turns = length (filter (λ step. str_eq step.source "agent") trajectory);
      tool_calls = length calls;
      tools = collect_members text_order (map (λ call. call.function_name) calls);
    }
