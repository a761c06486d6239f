-- ===== src/Retry/Overlay.antt =====
-- Which tasks `retained_retry_task_names` of bin/nanoeval/src/eval.rs puts in the queue.
use nanoeval.Prelude.{
  Bool, List, Option, Result-cases, String, [], ap, filter, inl, inr, none, ok, some, subst, sym,
  true, ◌↔◌, ◌∙◌, ◌∷◌, ◌≡◌,
}
use nanoeval.Prelude.Paths.{FilePath}
use nanoeval.Prelude.Dict.{Dict, keys, lookup}
use nanoeval.Prelude.Dict.Ordered.{
  union, IsOrdered, Memᴰ-lookup, lookup-Memᴰ, lookup-union, or_else, union-IsOrdered,
}
use nanoeval.Prelude.Members.{Memᴰ-filter_to, Memᴰ-filter_from, Memᴰ-keys_from, Memᴰ-keys_to}
use nanoeval.Retry.{
  retry_queue, Retained, RetainedRetryQueue, RetainedTrialStatus, is_retryable, is_selected,
  overlay, retained_task_statuses, status,
}
use nanoeval.Retry.Statuses.{retained_task_statuses-IsOrdered}
use mathlib.Core.List.{Memᴰ}

-- The status of a task in the last of the jobs that has one, or else the one given.
abbrev pub latest :
    String
    → Option RetainedTrialStatus
    → List (Dict RetainedTrialStatus)
    → Option RetainedTrialStatus
latest name before [] = before
latest name before (statuses ∷ later) = latest name (or_else (lookup name statuses) before) later

-- A name is in the list exactly when its status is to be tried again and the name is selected.
abbrev pub IsQueued :
    String
    → List String
    → Option RetainedTrialStatus
    → (RetainedTrialStatus → Bool)
    → (String → Bool)
    → Type 0
IsQueued name names status retry selected =
    Memᴰ name names
    ↔ ((s : RetainedTrialStatus) × (status ≡ some s) × (retry s ≡ true) × (selected name ≡ true))

-- The names that a filtered dictionary and a selection leave.
queue_names :
    (retry : RetainedTrialStatus → Bool) (selected : String → Bool) (m : Dict RetainedTrialStatus)
    → IsOrdered m
    → (name : String)
    → IsQueued name
        (filter selected (keys (filter (λ e. retry (e.1)) m)))
        (lookup name m)
        retry
        selected
queue_names retry selected m o name = (
  λ listed.
      let (there, chosen) =
        Memᴰ-filter_to selected name (keys (filter (λ e. retry (e.1)) m)) listed in
      let (s, kept) = Memᴰ-keys_to name (filter (λ e. retry (e.1)) m) there in
      let (here, retried) = Memᴰ-filter_to (λ e. retry (e.1)) (name, s) m kept in
      (s, Memᴰ-lookup name s m o here, retried, chosen),
  λ found.
      let (s, here, retried, chosen) = found in
      Memᴰ-filter_from selected name (keys (filter (λ e. retry (e.1)) m))
        (Memᴰ-keys_from name s (filter (λ e. retry (e.1)) m)
          (Memᴰ-filter_from (λ e. retry (e.1)) (name, s) m (lookup-Memᴰ name s m here) retried))
        chosen,
)

module _ {Reward E : Type 0} (positive : Reward → Bool) (retained : Retained Reward E) where
  -- The jobs' directories read as these dictionaries.
  abbrev pub IsRead : List FilePath → List (Dict RetainedTrialStatus) → Type 0
  IsRead [] [] = Unit
  IsRead (job ∷ jobs) (statuses ∷ later) =
      (retained_task_statuses positive (retained.entries job) ≡ ok statuses) × IsRead jobs later
  IsRead _ _ = ⊥

  overlay-latest :
      (statuses : Dict RetainedTrialStatus) (jobs : List FilePath) (out : Dict RetainedTrialStatus)
      → IsOrdered statuses
      → overlay positive retained statuses jobs ≡ ok out
      → IsOrdered out
        × ((dicts : List (Dict RetainedTrialStatus)) × IsRead jobs dicts
            × ((name : String) → lookup name out ≡ latest name (lookup name statuses) dicts))
  unfolding overlay
  overlay-latest statuses [] out o h =
      let done : statuses ≡ out = cc in
      (subst IsOrdered done o, ([], tt, λ name. ap (lookup name) (sym done)))
  overlay-latest statuses (job ∷ jobs) out o h =
      elim (Result-cases (retained_task_statuses positive (retained.entries job))) [
        | inr (error, bad) ↦ absurd (cc (rw (overlay, bad) at h))
        | inl (newer, read) ↦
            let sorted : IsOrdered newer =
              retained_task_statuses-IsOrdered positive (retained.entries job) newer read in
            let (done, (dicts, all_read, found)) =
              overlay-latest (union statuses newer) jobs out (union-IsOrdered statuses newer o)
                (rw (overlay, read) at h) in
            (
              done,
              (
                newer ∷ dicts,
                (read, all_read),
                λ name.
                    found name
                    ∙ ap (λ s. latest name s dicts) (lookup-union name statuses newer sorted),
              ),
            )
      ]

  -- A queue that is built has exactly the tasks that are selected and whose status, in the latest of
  -- the lineage's jobs that has one, is failed, or refused or errored where those are asked for.
  pub retry_queue-members :
      (include_refused include_errored : Bool) (matcher : Option (String → Bool))
      (lineage : List FilePath) (queue : RetainedRetryQueue)
      → retry_queue positive retained include_refused include_errored matcher lineage ≡ ok queue
      → (dicts : List (Dict RetainedTrialStatus)) × IsRead lineage dicts
        × ((name : String)
            → IsQueued name queue.task_names
                (latest name none dicts)
                (is_retryable include_refused include_errored)
                (is_selected matcher))
  unfolding retry_queue lookup
  retry_queue-members include_refused include_errored matcher lineage queue h =
      elim (Result-cases (overlay positive retained [] lineage)) [
        | inr (error, bad) ↦ absurd (cc (rw (retry_queue, bad) at h))
        | inl (statuses, good) ↦
            let (sorted, (dicts, all_read, found)) = overlay-latest [] lineage statuses tt good in
            let built = rw (retry_queue, good) at h in
            let retry = is_retryable include_refused include_errored in
            let names = queue_names retry (is_selected matcher) statuses sorted in
            let queued : filter (is_selected matcher) (keys (filter (λ e. retry (e.1)) statuses))
                ≡ queue.task_names =
              cc built in
            (
              dicts,
              all_read,
              λ name.
                  subst
                    (λ ns. IsQueued name ns (latest name none dicts) retry (is_selected matcher))
                    queued
                    (subst
                      (λ o.
                        IsQueued name
                          (filter (is_selected matcher) (keys (filter (λ e. retry (e.1)) statuses)))
                          o retry (is_selected matcher))
                      (found name) (names name)),
            )
      ]
