-- ===== src/Retry/Statuses.antt =====
-- What `retained_task_statuses` of bin/nanoeval/src/eval.rs makes of the trials of a job.
use nanoeval.Retry.Best.{IsBest, IsBestOf, note_status-IsBestOf, trials_of}
use nanoeval.Prelude.Dict.Ordered.{insert-IsOrdered, IsOrdered}
use nanoeval.Prelude.Dict.{lookup, Dict}
use nanoeval.Prelude.{
  Bool, List, Result, String, [], arith, err, inl, inr, none, ok, some, ◌∷◌, ◌≡◌, Result-cases,
  subst,
}
use nanoeval.Retry.{
  entry_trials, RetainedEntry, RetainedTrialStatus, add_statuses, joined, note_status,
  retained_task_statuses,
}

module _ {Reward E : Type 0} (positive : Reward → Bool) where
  add_statuses-IsBestOf :
      (statuses : Dict RetainedTrialStatus) (entries : List (Result (RetainedEntry Reward E) E))
      (out : Dict RetainedTrialStatus) (name : String)
      → add_statuses positive statuses entries ≡ ok out
      → IsBestOf name (lookup name statuses) (trials_of positive entries) (lookup name out)
  unfolding add_statuses
  add_statuses-IsBestOf statuses [] out name h =
      let same : statuses ≡ out = ground arith in
      subst (λ d. IsBestOf name (lookup name statuses) [] (lookup name d)) same
        (record {
          shown = λ s e. inl e;
          best = λ s t e m. elim m [
            | inl before ↦ let value : s ≡ t = ground arith in rw value (omega arith)
            | inr none_listed ↦ elim none_listed [ ]
          ];
          counted =
              λ t m e. elim m [ inl before ↦ absurd (cc) | inr none_listed ↦ elim none_listed [ ] ];
        })
  add_statuses-IsBestOf statuses (err error ∷ entries) out name h = absurd (cc)
  add_statuses-IsBestOf statuses (ok entry ∷ entries) out name h =
      elim (Result-cases (entry_trials positive entry)) [
        | inr (error, bad) ↦ absurd (cc (rw bad at h))
        | inl (none, found) ↦
            rw (trials_of, found) (add_statuses-IsBestOf statuses entries out name (rw found at h))
        | inl (some (key, s), found) ↦
            rw (trials_of, found)
              (note_status-IsBestOf statuses key s name (trials_of positive entries)
                (lookup name out)
                (add_statuses-IsBestOf (note_status statuses (key, s)) entries out name
                  (rw found at h)))
      ]

  add_statuses-IsOrdered :
      (statuses : Dict RetainedTrialStatus) (entries : List (Result (RetainedEntry Reward E) E))
      (out : Dict RetainedTrialStatus)
      → IsOrdered statuses
      → add_statuses positive statuses entries ≡ ok out
      → IsOrdered out
  unfolding add_statuses note_status
  add_statuses-IsOrdered statuses [] out o h =
      let done : statuses ≡ out = ground arith in subst IsOrdered done o
  add_statuses-IsOrdered statuses (err error ∷ entries) out o h = absurd (cc)
  add_statuses-IsOrdered statuses (ok entry ∷ entries) out o h =
      elim (Result-cases (entry_trials positive entry)) [
        | inr (error, bad) ↦ absurd (cc (rw bad at h))
        | inl (none, found) ↦ add_statuses-IsOrdered statuses entries out o (rw found at h)
        | inl (some (key, s), found) ↦
            add_statuses-IsOrdered (note_status statuses (key, s)) entries out
              (insert-IsOrdered key (joined (lookup key statuses) s) statuses o) (rw found at h)
      ]

  pub retained_task_statuses-IsOrdered :
      (listing : Result (List (Result (RetainedEntry Reward E) E)) E)
      (out : Dict RetainedTrialStatus)
      → retained_task_statuses positive listing ≡ ok out
      → IsOrdered out
  unfolding retained_task_statuses
  retained_task_statuses-IsOrdered (ok entries) out h = add_statuses-IsOrdered [] entries out tt h
  retained_task_statuses-IsOrdered (err error) out h = absurd (cc)

  -- When the directory of a job is read, each task has in the result the best status that one of its
  -- trials has there, in the order passed, failed, refused, errored, and a task without a trial has
  -- none.
  pub retained_task_statuses-IsBest :
      (entries : List (Result (RetainedEntry Reward E) E)) (out : Dict RetainedTrialStatus)
      → retained_task_statuses positive (ok entries) ≡ ok out
      → (name : String) → IsBest name (trials_of positive entries) (lookup name out)
  unfolding retained_task_statuses lookup
  retained_task_statuses-IsBest entries out h name =
      let all_best = add_statuses-IsBestOf [] entries out name h in
      record {
        shown = λ s e. elim (all_best.shown s e) [ inl before ↦ absurd (cc) | inr listed ↦ listed ];
        best = λ s t e listed. all_best.best s t e (inr listed);
        counted = λ t listed. all_best.counted t (inr listed);
      }
