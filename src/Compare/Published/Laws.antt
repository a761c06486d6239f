-- ===== src/Compare/Published/Laws.antt =====
-- Which published runs bin/nanoeval/src/compare.rs compares a job with, and their scores.
use nanoeval.Compare.Published.Names.{record_tasks-IsNamed, has_attempt}
use nanoeval.Prelude.StableSort.{
  IsSortedBy-take, IsSortedBy, Memᴰ-Permᴰ, sort_by-IsSortedBy, sort_by-Permᴰ,
}
use nanoeval.Prelude.Members.{Memᴰ-filter_to, Memᴰ-map_to}
use nanoeval.Compare.Local.{LocalJob}
use nanoeval.Compare.Published.Tallies.{
  exact_attempts, empty-IsTallied, record_tasks-IsTallied, tasks_of,
}
use mathlib.Core.List.{Memᴰ}
use nanoeval.Prelude.{
  ℕ, Bool, List, String, [], arith, filter, inl, inr, is_present, true, ◌+◌, ◌∙◌, ◌∷◌, ◌≡◌, ◌⊎◌, ok,
  subst, ==_iff, Memᴰ-take, Result-cases, length, length-map, length-take, refl, sym, take, ◌==◌,
  ◌≤◌, All, All-map, false, ◌<◌, Option,
}
use nanoeval.Prelude.Dict.{values, Dict, lookup}
use nanoeval.Prelude.Dict.Ordered.{Memᴰ-lookup, IsOrdered}
use nanoeval.Prelude.Dict.Totals.{sum_of, sum_of-one, sum_of-values}
use nanoeval.Prelude.Order.{text_order}
use nanoeval.Archive.{PublishedAttempt, PublishedAttempts}
use nanoeval.Compare.{TaskScore, scored, unscored, count}
use nanoeval.Compare.Scores.{RunScore, new_score}
use nanoeval.Compare.Published.{
  run_before, PublishedRun, Runs, record_tasks, JobComparison, covering, new_comparison,
  published_run_score, single_revision, sort_runs,
}

run_before-total : (a b : RunScore) → (run_before a b ≡ true) ⊎ (run_before b a ≡ true)
unfolding run_before
run_before-total a b = ground (arith, text_order.total a.submission b.submission)

run_before_trans :
    (a b c : RunScore) → run_before a b ≡ true → run_before b c ≡ true → run_before a c ≡ true
unfolding run_before
run_before_trans a b c p q =
    ground (arith, p, q, text_order.trans a.submission b.submission c.submission)

-- A run stands before another: by more solved tasks, or by as many and more passed trials, or by as
-- many of both and fewer errors, or by as many of all three and its submission.
abbrev pub IsBetter : RunScore → RunScore → Type 0
IsBetter a b =
    (b.pass_at_k_tasks < a.pass_at_k_tasks)
    ⊎ ((a.pass_at_k_tasks ≡ b.pass_at_k_tasks)
        × ((b.passes < a.passes)
            ⊎ ((a.passes ≡ b.passes)
                × ((a.errors < b.errors)
                    ⊎ ((a.errors ≡ b.errors) × (text_order.le a.submission b.submission ≡ true))))))

run_before-IsBetter : (a b : RunScore) → run_before a b ≡ true → IsBetter a b
unfolding run_before
run_before-IsBetter a b h = ground (arith, h)

abbrev pub AreBestFirst : List RunScore → Type 0
AreBestFirst [] = Unit
AreBestFirst (run ∷ later) = All (IsBetter run) later × AreBestFirst later

IsSortedBy-AreBestFirst : (runs : List RunScore) → IsSortedBy run_before runs → AreBestFirst runs
IsSortedBy-AreBestFirst [] h = tt
IsSortedBy-AreBestFirst (run ∷ later) (first, rest) =
    (All-map (run_before-IsBetter run) later first, IsSortedBy-AreBestFirst later rest)

sum_of-count :
    (p : PublishedAttempt → Bool) (attempts : List PublishedAttempt)
    → sum_of (λ a. count (p a)) attempts ≡ length (filter p attempts)
sum_of-count p [] = refl
sum_of-count p (a ∷ attempts) = ground (arith, sum_of-count p attempts)

-- A run that is compared: it has one score for each name of a task that its submission has an attempt
-- at, at a revision that was asked for, and as many as there are tasks in the job; its trials and
-- passes are those of these attempts.
pub record IsCovering (expected_tasks : ℕ) (tasks : List PublishedAttempts) (run : RunScore)
    : Type 0 where
  pub by_name : Dict TaskScore
  pub one_each : IsOrdered by_name
  pub scores : run.task_scores ≡ values by_name
  pub attempted :
      (name : String)
      → is_present (lookup name by_name) ≡ has_attempt name (exact_attempts run.submission tasks)
  pub covers : (run.tasks ≡ expected_tasks) × (length by_name ≡ expected_tasks)
  pub exact : run.exact_revision ≡ true
  pub trials : run.trials ≡ length (exact_attempts run.submission tasks)
  pub passes : run.passes ≡ length (filter (λ a. a.passed) (exact_attempts run.submission tasks))

module _ {E : Type 0} (one_task : Bool) (tasks : List PublishedAttempts) (runs : Runs)
    (recorded_all : record_tasks {E = E} one_task
        (record { exact_runs = []; other_runs = [] })
        tasks
      ≡ ok runs) where
  run_total :
      (f : TaskScore → ℕ) (g : PublishedAttempt → ℕ)
      → ((name checksum : String) → f (unscored name checksum) ≡ 0)
      → ((score : TaskScore) (attempt : PublishedAttempt)
          → f (scored score attempt.passed attempt.errored (is_present attempt.trajectory_path))
            ≡ f score + g attempt)
      → (submission : String) (run : PublishedRun) → Memᴰ (submission, run) runs.exact_runs
      → sum_of f (values run.tasks) ≡ sum_of g (exact_attempts submission tasks)
  run_total f g fresh grown submission run listed =
      let (sorted, tallied) =
        record_tasks-IsTallied f g fresh grown one_task
          (record { exact_runs = []; other_runs = [] }) tasks runs (λ s. 0)
          (empty-IsTallied f g fresh grown) recorded_all in
      let found = Memᴰ-lookup submission run runs.exact_runs sorted listed in
      let counted = (tallied submission).1 in
      sum_of-values f run.tasks ∙ (omega (arith, rw found at counted))

  -- A run has a score for each task that it has an attempt at, and for no other.
  run_names :
      (submission : String) (run : PublishedRun)
      → Memᴰ (submission, run) runs.exact_runs
      → IsOrdered run.tasks
        × ((name : String)
            → is_present (lookup name run.tasks)
              ≡ has_attempt name (exact_attempts submission tasks))
  unfolding lookup
  run_names submission run listed =
      let (sorted, tallied) =
        record_tasks-IsTallied (λ s. s.trials) (λ a. 1) (λ n c. refl) (λ s a. refl) one_task
          (record { exact_runs = []; other_runs = [] }) tasks runs (λ s. 0)
          (empty-IsTallied (λ s. s.trials) (λ a. 1) (λ n c. refl) (λ s a. refl)) recorded_all in
      let found = Memᴰ-lookup submission run runs.exact_runs sorted listed in
      let named =
        record_tasks-IsNamed one_task (record { exact_runs = []; other_runs = [] }) tasks runs
          (λ s name. false) (λ s name. refl) recorded_all in
      (
        rw found at (tallied submission).0,
        λ name.
            subst
              (λ (m : Option PublishedRun).
                is_present (lookup name (tasks_of m))
                ≡ has_attempt name (exact_attempts submission tasks))
              found (named submission name),
      )

  covering-IsCovering :
      (expected_tasks : ℕ) (run : RunScore)
      → Memᴰ run (covering expected_tasks runs.exact_runs)
      → IsCovering expected_tasks tasks run
  unfolding published_run_score new_score
  covering-IsCovering expected_tasks run m =
      let ((submission, published), kept, e) =
        Memᴰ-map_to (λ (e : String × PublishedRun). published_run_score (e.0) (e.1) true) run
          (filter (λ e. length (e.1).tasks == expected_tasks) runs.exact_runs) m in
      let (listed, full) =
        Memᴰ-filter_to (λ (e : String × PublishedRun). length (e.1).tasks == expected_tasks)
          (submission, published) runs.exact_runs kept in
      let (ordered, named) = run_names submission published listed in
      let as_many = (==_iff (length published.tasks) expected_tasks).0 full in
      subst (IsCovering expected_tasks tasks) (sym e) (record {
        by_name = published.tasks;
        one_each = ordered;
        scores = refl;
        attempted = named;
        covers = (length-map (λ (e : String × TaskScore). e.1) published.tasks ∙ as_many, as_many);
        exact = refl;
        trials =
            run_total (λ s. s.trials) (λ a. 1) (λ n c. refl) (λ s a. refl) submission published
              listed
            ∙ sum_of-one (exact_attempts submission tasks);
        passes =
            run_total (λ s. s.passes) (λ a. count a.passed) (λ n c. refl) (λ s a. refl) submission
              published listed
            ∙ sum_of-count (λ a. a.passed) (exact_attempts submission tasks);
      })

-- The exact runs of a comparison are at most `limit`, in the order of more solved tasks, then more
-- passed trials, then fewer errors, then the submission. Each has one score for each name of a task
-- that its submission has an attempt at, at a revision that was asked for, and as many scores as the
-- job has tasks; its trials and passes are counted over all these attempts.
pub new_comparison-IsCovering :
    {E : Type 0} (job : LocalJob) (tasks : List PublishedAttempts) (limit : ℕ)
    (comparison : JobComparison)
    → new_comparison {E = E} job tasks limit ≡ ok comparison
    → (length comparison.exact ≤ limit)
      × AreBestFirst comparison.exact
      × ((run : RunScore) → Memᴰ run comparison.exact → IsCovering (length job.tasks) tasks run)
unfolding new_comparison sort_runs
new_comparison-IsCovering {E} job tasks limit comparison h =
    elim (Result-cases (single_revision {E = E} tasks)) [
      | inr (error, bad) ↦ absurd (cc (rw (new_comparison, bad) at h))
      | inl (revision, single) ↦
          elim (Result-cases (
            record_tasks {E = E} (length job.tasks == 1)
              (record { exact_runs = []; other_runs = [] }) tasks)) [
                | inr (error, bad) ↦ absurd (cc (rw bad at rw (new_comparison, single) at h))
                | inl (runs, good) ↦
                    let built = rw good at rw (new_comparison, single) at h in
                    let all_runs = covering (length job.tasks) runs.exact_runs in
                    let shown : take limit (sort_runs all_runs) ≡ comparison.exact = cc built in
                    subst
                      (λ exact.
                        (length exact ≤ limit)
                        × AreBestFirst exact
                        × ((run : RunScore)
                            → Memᴰ run exact
                            → IsCovering (length job.tasks) tasks run))
                      shown
                      (
                        length-take limit (sort_runs all_runs),
                        IsSortedBy-AreBestFirst (take limit (sort_runs all_runs)) (
                            IsSortedBy-take run_before limit (sort_runs all_runs) (
                              sort_by-IsSortedBy run_before run_before-total run_before_trans
                                all_runs)),
                        λ run m.
                            covering-IsCovering (length job.tasks == 1) tasks runs good
                              (length job.tasks) run
                              (Memᴰ-Permᴰ (sort_by-Permᴰ run_before all_runs)
                                (Memᴰ-take run limit (sort_runs all_runs) m)),
                      )
              ]
    ]
