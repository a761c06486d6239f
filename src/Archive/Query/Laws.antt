-- ===== src/Archive/Query/Laws.antt =====
-- Which attempts `query` of crates/nanoeval-harbor/src/published.rs shows.
use nanoeval.Prelude.{
  List, Memᴰ-take, String, [], arith, filter, inl, inr, length, length-filter-not, length-take, map,
  ok, true, ◌≡◌, ◌≤◌, ◌⊎◌,
}
use nanoeval.Prelude.StableSort.{
  sort_by, Memᴰ-Permᴰ, first_of_each, first_of_each-IsDistinct, first_of_each-Memᴰ,
  first_of_each-least, sort_by-IsSortedBy, sort_by-Permᴰ,
}
use nanoeval.Prelude.Order.{text_order}
use nanoeval.Prelude.Members.{Memᴰ-filter_to, Memᴰ-filter_from}
use nanoeval.Prelude.Distinct.{IsDistinct, IsDistinct-take}
use nanoeval.Archive.{PublishedQuery, PublishedRecord, Rewards, matches_checksum}
use nanoeval.Archive.Query.{
  query_archive, Artifacts, PublishedTask, is_passing, published_trial, ranks_before,
  selected_records,
}
use mathlib.Core.List.{Memᴰ}
use mathlib.Core.List.Permᴰ

module _ {Reward : Type 0} (query : PublishedQuery) where
  ranks_before-total :
      (a b : PublishedRecord Reward)
      → (ranks_before query a b ≡ true) ⊎ (ranks_before query b a ≡ true)
  unfolding ranks_before
  ranks_before-total a b =
      ground (arith, text_order.total a.candidate.submission b.candidate.submission)

  ranks_before_trans :
      (a b c : PublishedRecord Reward)
      → ranks_before query a b ≡ true
      → ranks_before query b c ≡ true
      → ranks_before query a c ≡ true
  unfolding ranks_before
  ranks_before_trans a b c p q = ground (
    arith,
    p,
    q,
    text_order.trans a.candidate.submission b.candidate.submission c.candidate.submission,
  )

  ranks_itself : (a : PublishedRecord Reward) → ranks_before query a a ≡ true
  ranks_itself a = elim (ranks_before-total a a) [ inl p ↦ p | inr p ↦ p ]

-- A record is shown for its submission: it passes, and no passing record of the submission ranks
-- before it.
pub record IsShown {Reward : Type 0} (rewards : Rewards Reward) (lower : String → String)
    (query : PublishedQuery) (records : List (PublishedRecord Reward))
    (shown : PublishedRecord Reward) : Type 0 where
  pub listed : Memᴰ shown records
  pub passes : is_passing rewards lower query shown ≡ true
  pub first :
      (published : PublishedRecord Reward)
      → Memᴰ published records
      → is_passing rewards lower query published ≡ true
      → published.candidate.submission ≡ shown.candidate.submission
      → ranks_before query shown published ≡ true

module _ {Reward : Type 0} (rewards : Rewards Reward) (lower : String → String)
    (query : PublishedQuery) where
  selected_records-IsShown :
      (records : List (PublishedRecord Reward)) (shown : PublishedRecord Reward)
      → Memᴰ shown
          (selected_records rewards query (filter (is_passing rewards lower query) records))
      → IsShown rewards lower query records shown
  unfolding selected_records
  selected_records-IsShown records shown m =
      let passing = filter (is_passing rewards lower query) records in
      let sorted = sort_by (ranks_before query) passing in
      let key = λ (published : PublishedRecord Reward). published.candidate.submission in
      let kept = Memᴰ-take shown query.limit (first_of_each key [] sorted) m in
      let (listed, good) = Memᴰ-filter_to (is_passing rewards lower query) shown records (
        Memᴰ-Permᴰ (sort_by-Permᴰ (ranks_before query) passing)
          (first_of_each-Memᴰ key [] sorted shown kept)) in
      record {
        listed = listed;
        passes = good;
        first = λ published there passed same_key.
            first_of_each-least key (ranks_before query) (ranks_itself query) [] sorted
              (sort_by-IsSortedBy (ranks_before query) (ranks_before-total query)
                (ranks_before_trans query) passing)
              shown published kept
              (Memᴰ-Permᴰ (Permᴰ.symm (sort_by-Permᴰ (ranks_before query) passing))
                (Memᴰ-filter_from (is_passing rewards lower query) published records there passed))
              same_key;
      }

  -- A query that succeeds shows at most as many attempts as its limit, of different submissions, and
  -- each passes and is one that no passing attempt of its submission ranks before; it reports no
  -- more exact passing results than passing ones, and no more of these than matching ones.
  pub query_archive-IsSelection :
      {B T E : Type 0} (artifacts : Artifacts B T E) (revision : String)
      (records : List (PublishedRecord Reward)) (task : PublishedTask Reward T)
      → query_archive rewards lower artifacts query (ok (revision, records)) ≡ ok task
      → (selected : List (PublishedRecord Reward)) × (task.trials
          ≡ map (published_trial rewards artifacts) selected)
        × (length selected ≤ query.limit)
        × IsDistinct (λ published. published.candidate.submission) selected
        × ((shown : PublishedRecord Reward)
            → Memᴰ shown selected
            → IsShown rewards lower query records shown)
        × (task.exact_passing_results ≤ task.passing_results)
        × (task.passing_results ≤ task.matching_results)
  unfolding query_archive selected_records
  query_archive-IsSelection artifacts revision records task h =
      let passing = filter (is_passing rewards lower query) records in
      let sorted = sort_by (ranks_before query) passing in
      let key = λ (published : PublishedRecord Reward). published.candidate.submission in
      let exact = λ (published : PublishedRecord Reward).
        matches_checksum query published.result.task_checksum in
      (
        selected_records rewards query passing,
        (cc h),
        length-take query.limit (first_of_each key [] sorted),
        IsDistinct-take key query.limit (first_of_each key [] sorted)
            (first_of_each-IsDistinct key [] sorted),
        selected_records-IsShown records,
        (let counts : (task.exact_passing_results ≡ length (filter exact passing))
                × (task.passing_results ≡ length passing) =
              (cc h, cc h) in
            omega (arith, counts, length-filter-not exact passing)),
        (let counts : (task.passing_results ≡ length passing)
                × (task.matching_results ≡ length records) =
              (cc h, cc h) in
            omega (arith, counts, length-filter-not (is_passing rewards lower query) records)),
      )
