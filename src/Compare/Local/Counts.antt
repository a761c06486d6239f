-- ===== src/Compare/Local/Counts.antt =====
-- The counts of a retained job of bin/nanoeval/src/compare.rs against the listing of its directory.
use nanoeval.Prelude.{
  ℕ, Bool, List, Option, Result, Result-cases, String, [], arith, err, filter, inl, inr, length,
  none, ok, refl, some, subst, ◌+◌, ◌∷◌, ◌≡◌, is_present,
}
use nanoeval.Prelude.Dict.{Dict, insert, lookup}
use nanoeval.Prelude.Dict.Ordered.{IsOrdered, insert-IsOrdered}
use nanoeval.Prelude.Dict.Totals.{total, old_value, total-insert}
use nanoeval.Compare.{TaskScore, count, or_insert, unscored}
use nanoeval.Compare.Local.{
  load_trials, LocalJobLoader, LocalTrial, TrialDirectory, is_passed, load_observed_thinking,
  record_trial, recorded, score_of, trial_of,
}

pub old_value-unscored :
    (f : TaskScore → ℕ) (old : Option TaskScore) (name checksum : String)
    → f (unscored name checksum) ≡ 0
    → f (or_insert old (unscored name checksum)) ≡ old_value f old
old_value-unscored f none name checksum h = h
old_value-unscored f (some score) name checksum h = refl

-- The trials of a listing: the directories with a result, in its order.
abbrev pub listed_trials :
    {Reward E : Type 0}
    → List (Result (TrialDirectory Reward E) E)
    → List (TrialDirectory Reward E × LocalTrial Reward)
listed_trials [] = []
listed_trials (entry ∷ entries) = elim (trial_of entry) [
  | ok none ↦ listed_trials entries
  | ok (some pair) ↦ pair ∷ listed_trials entries
  | err error ↦ []
]

module _ {Reward E : Type 0} (positive : Reward → Bool) where
  -- The totals of the second scores are those of the first with these trials counted once each.
  pub record AreCounted (pairs : List (TrialDirectory Reward E × LocalTrial Reward))
      (before after : Dict TaskScore) : Type 0 where
    pub trials : total (λ s. s.trials) after ≡ total (λ s. s.trials) before + length pairs
    pub passes :
        total (λ s. s.passes) after
        ≡ total (λ s. s.passes) before + length (filter (λ p. is_passed positive (p.1)) pairs)
    pub errors :
        total (λ s. s.errors) after
        ≡ total (λ s. s.errors) before
          + length (filter (λ p. is_present (p.1).exception_info) pairs)
    pub trajectories :
        total (λ s. s.trajectories) after
        ≡ total (λ s. s.trajectories) before + length (filter (λ p. (p.0).has_trajectory) pairs)

  module _ (tasks : Dict TaskScore) (directory : TrialDirectory Reward E)
      (trial : LocalTrial Reward) where
    score_total :
        (f : TaskScore → ℕ) (n : ℕ)
        → IsOrdered tasks
        → f (unscored trial.task_name trial.task_checksum) ≡ 0
        → f (score_of positive tasks directory trial)
          ≡ f (
              or_insert
                (lookup trial.task_name tasks)
                (unscored trial.task_name trial.task_checksum))
            + n
        → total f (insert trial.task_name (score_of positive tasks directory trial) tasks)
          ≡ total f tasks + n
    score_total f n o fresh grown =
        let new_score = score_of positive tasks directory trial in
        omega (
          arith,
          grown,
          total-insert f trial.task_name new_score tasks o,
          old_value-unscored f (lookup trial.task_name tasks) trial.task_name trial.task_checksum
              fresh,
        )

    score-AreCounted :
        (rest : List (TrialDirectory Reward E × LocalTrial Reward)) (after : Dict TaskScore)
        → IsOrdered tasks
        → AreCounted rest
            (insert trial.task_name (score_of positive tasks directory trial) tasks)
            after
        → AreCounted ((directory, trial) ∷ rest) tasks after
    score-AreCounted rest after o h = record {
      trials = omega (arith, h.trials, score_total (λ s. s.trials) 1 o refl refl);
      passes = ground (
        arith,
        h.passes,
        score_total (λ s. s.passes) (count (is_passed positive trial)) o refl refl,
      );
      errors = ground (
        arith,
        h.errors,
        score_total (λ s. s.errors) (count (is_present trial.exception_info)) o refl refl,
      );
      trajectories = ground (
        arith,
        h.trajectories,
        score_total (λ s. s.trajectories) (count directory.has_trajectory) o refl refl,
      );
    }

  record_trial-tasks :
      (loader : LocalJobLoader) (directory : TrialDirectory Reward E) (trial : LocalTrial Reward)
      (out : LocalJobLoader)
      → record_trial positive loader directory trial ≡ ok out
      → (observed : Option String) × (out ≡ recorded positive loader directory trial observed)
  unfolding record_trial
  record_trial-tasks loader directory trial out h =
      elim (Result-cases (load_observed_thinking directory.events)) [
        | inr (error, bad) ↦ absurd (cc (rw (record_trial, bad) at h))
        | inl (observed, found) ↦
            let step = rw (record_trial, found) at h in (observed, ground (arith, step))
      ]

  pub load_trials-AreCounted :
      (loader : LocalJobLoader) (entries : List (Result (TrialDirectory Reward E) E))
      (out : LocalJobLoader)
      → IsOrdered loader.tasks
      → load_trials positive loader entries ≡ ok out
      → AreCounted (listed_trials entries) loader.tasks out.tasks
  unfolding load_trials
  load_trials-AreCounted loader [] out o h =
      let done : loader ≡ out = cc in
      subst (λ (l : LocalJobLoader). AreCounted [] loader.tasks l.tasks) done
        (record {
          trials = omega arith;
          passes = omega arith;
          errors = omega arith;
          trajectories = omega arith;
        })
  load_trials-AreCounted loader (entry ∷ entries) out o h = elim (Result-cases (trial_of entry)) [
    | inr (error, bad) ↦ absurd (cc (rw (load_trials, bad) at h))
    | inl (none, found) ↦
        rw (listed_trials, found)
          (load_trials-AreCounted loader entries out o (rw (load_trials, found) at h))
    | inl (some (directory, trial), found) ↦
        let step = rw (load_trials, found) at h in
        elim (Result-cases (record_trial positive loader directory trial)) [
          | inr (error, bad) ↦ absurd (cc (rw bad at step))
          | inl (more, good) ↦
              let (observed, grown) = record_trial-tasks loader directory trial more good in
              let later : load_trials positive (recorded positive loader directory trial observed)
                    entries
                  ≡ ok out =
                subst (λ l. load_trials positive l entries ≡ ok out) grown (rw good at step) in
              let rest =
                load_trials-AreCounted (recorded positive loader directory trial observed) entries
                  out
                  (insert-IsOrdered trial.task_name (score_of positive loader.tasks directory trial)
                    loader.tasks o)
                  later in
              rw (listed_trials, found)
                (score-AreCounted loader.tasks directory trial (listed_trials entries) out.tasks o
                  rest)
        ]
  ]
