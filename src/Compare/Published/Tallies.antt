-- ===== src/Compare/Published/Tallies.antt =====
-- How the published attempts are counted by submission in bin/nanoeval/src/compare.rs.
use nanoeval.Compare.Local.Counts.{old_value-unscored}
use nanoeval.Errors.{is_some_and}
use nanoeval.Prelude.{
  ℕ, Bool, Bool-cases, List, Option, String, [], ap, arith, eq_iff, filter, if◌then◌else◌, inl, inr,
  is_present, some, str_eq, ◌&&◌, ◌++◌, ◌+◌, ◌∙◌, ◌∷◌, ◌≡◌, Option-cases, ok, subst, refl,
}
use nanoeval.Prelude.Dict.{Dict, insert, lookup, lookup-insert}
use nanoeval.Prelude.Dict.Ordered.{IsOrdered, insert-IsOrdered}
use nanoeval.Prelude.Dict.Totals.{total, total-insert, sum_of, sum_of-append}
use nanoeval.Archive.{PublishedAttempt, PublishedAttempts}
use nanoeval.Compare.{TaskScore, or_insert, scored, unscored}
use nanoeval.Compare.Published.{
  PublishedRun, Runs, empty_run, published_score, record_attempt, record_published, record_attempts,
  record_tasks,
}

-- the tasks of the run that there may be
abbrev pub tasks_of : Option PublishedRun → Dict TaskScore
tasks_of found = (or_insert found empty_run).tasks

-- An attempt of this submission at this revision of its task.
abbrev pub is_exact_for : String → Option String → PublishedAttempt → Bool
is_exact_for submission checksum attempt =
    is_some_and checksum (λ c. str_eq attempt.task_checksum c)
    && str_eq attempt.submission submission

-- The published attempts of a submission at the revisions that were asked for.
abbrev pub exact_attempts : String → List PublishedAttempts → List PublishedAttempt
exact_attempts submission [] = []
exact_attempts submission (task ∷ tasks) =
    filter (is_exact_for submission task.requested_checksum) task.attempts
    ++ exact_attempts submission tasks

-- A number of a task's score and what an attempt adds to it.
module _ (f : TaskScore → ℕ) (g : PublishedAttempt → ℕ)
    (fresh : (name checksum : String) → f (unscored name checksum) ≡ 0)
    (grown : (score : TaskScore) (attempt : PublishedAttempt)
      → f (scored score attempt.passed attempt.errored (is_present attempt.trajectory_path))
        ≡ f score + g attempt) where
  abbrev pub IsTallied : Runs → (String → ℕ) → Type 0
  IsTallied runs n =
      IsOrdered runs.exact_runs
      × ((submission : String)
          → IsOrdered (tasks_of (lookup submission runs.exact_runs))
            × (total f (tasks_of (lookup submission runs.exact_runs)) ≡ n submission))

  record_published-total :
      (run : PublishedRun) (attempt : PublishedAttempt)
      → IsOrdered run.tasks
      → IsOrdered (record_published run attempt).tasks
        × (total f (record_published run attempt).tasks ≡ total f run.tasks + g attempt)
  unfolding record_published
  record_published-total run attempt o =
      let new_score = published_score run.tasks attempt in
      let old = lookup attempt.task_name run.tasks in
      (
        insert-IsOrdered attempt.task_name new_score run.tasks o,
        omega (
          arith,
          total-insert f attempt.task_name new_score run.tasks o,
          grown (or_insert old (unscored attempt.task_name attempt.task_checksum)) attempt,
          old_value-unscored f old attempt.task_name attempt.task_checksum
              (fresh attempt.task_name attempt.task_checksum),
        ),
      )

  record_attempt-IsTallied :
      (one_task : Bool) (checksum : String) (runs : Runs) (attempt : PublishedAttempt)
      (n : String → ℕ)
      → IsTallied runs n
      → IsTallied
          (record_attempt one_task checksum runs attempt)
          (λ s. n s + (if is_exact_for s (some checksum) attempt then g attempt else 0))
  unfolding record_attempt
  record_attempt-IsTallied one_task checksum runs attempt n h =
      elim (Bool-cases (str_eq attempt.task_checksum checksum)) [
        | inr differs ↦ elim (Bool-cases one_task) [
          | inl one ↦
              rw (record_attempt, differs)
                (rw one (h.0, λ s. ((h.1 s).0, omega (arith, (h.1 s).1))))
          | inr several ↦
              rw (record_attempt, differs)
                (rw several (h.0, λ s. ((h.1 s).0, omega (arith, (h.1 s).1))))
        ]
        | inl exact ↦
            let old = or_insert (lookup attempt.submission runs.exact_runs) empty_run in
            let new = record_published old attempt in
            let (sorted, grew) = record_published-total old attempt (h.1 attempt.submission).0 in
            rw (record_attempt, exact)
              (
                insert-IsOrdered attempt.submission new runs.exact_runs h.0,
                λ s.
                    let found = lookup-insert runs.exact_runs attempt.submission new s in
                    elim (Bool-cases (str_eq attempt.submission s)) [
                      | inl equal ↦
                          let same_name = (eq_iff attempt.submission s).0 equal in
                          let after : lookup s (insert attempt.submission new runs.exact_runs)
                              ≡ some new =
                            found
                            ∙ ap (λ (b : Bool). if b then some new else lookup s runs.exact_runs)
                                equal in
                          rw equal (
                            rw after (
                              sorted,
                              grew
                                  ∙ ap (λ m. m + g attempt)
                                      ((h.1 attempt.submission).1 ∙ ap n same_name),
                            ))
                      | inr apart ↦
                          let after : lookup s (insert attempt.submission new runs.exact_runs)
                              ≡ lookup s runs.exact_runs =
                            found
                            ∙ ap (λ (b : Bool). if b then some new else lookup s runs.exact_runs)
                                apart in
                          rw apart (rw after ((h.1 s).0, omega (arith, (h.1 s).1)))
                    ],
              )
      ]

  pub empty-IsTallied : IsTallied (record { exact_runs = []; other_runs = [] }) (λ s. 0)
  unfolding lookup
  empty-IsTallied = (tt, λ s. (tt, refl))

  sum_of-kept :
      (n : ℕ) (p : PublishedAttempt → Bool) (attempt : PublishedAttempt)
      (later : List PublishedAttempt)
      → (n + (if p attempt then g attempt else 0)) + sum_of g (filter p later)
        ≡ n + sum_of g (filter p (attempt ∷ later))
  sum_of-kept n p attempt later = ground arith

  record_attempts-IsTallied :
      (one_task : Bool) (checksum : String) (runs : Runs) (attempts : List PublishedAttempt)
      (n : String → ℕ)
      → IsTallied runs n
      → IsTallied
          (record_attempts one_task checksum runs attempts)
          (λ s. n s + sum_of g (filter (is_exact_for s (some checksum)) attempts))
  unfolding record_attempts
  record_attempts-IsTallied one_task checksum runs [] n h =
      (h.0, λ s. ((h.1 s).0, omega (arith, (h.1 s).1)))
  record_attempts-IsTallied one_task checksum runs (attempt ∷ later) n h =
      let step = record_attempt-IsTallied one_task checksum runs attempt n h in
      let (sorted, tallied) =
        record_attempts-IsTallied one_task checksum (record_attempt one_task checksum runs attempt)
          later (λ s. n s + (if is_exact_for s (some checksum) attempt then g attempt else 0))
          step in
      (
        sorted,
        λ s. (
          (tallied s).0,
          (tallied s).1 ∙ sum_of-kept (n s) (is_exact_for s (some checksum)) attempt later,
        ),
      )

  pub record_tasks-IsTallied :
      {E : Type 0} (one_task : Bool) (runs : Runs) (tasks : List PublishedAttempts) (out : Runs)
      (n : String → ℕ)
      → IsTallied runs n
      → record_tasks {E = E} one_task runs tasks ≡ ok out
      → IsTallied out (λ s. n s + sum_of g (exact_attempts s tasks))
  unfolding record_tasks
  record_tasks-IsTallied one_task runs [] out n h e =
      let done : runs ≡ out = cc in
      subst (λ r. IsTallied r (λ s. n s + 0)) done (h.0, λ s. ((h.1 s).0, omega (arith, (h.1 s).1)))
  record_tasks-IsTallied one_task runs (task ∷ tasks) out n h e =
      elim (Option-cases task.requested_checksum) [
        | inl lost ↦ absurd (cc (rw (record_tasks, lost) at e))
        | inr (checksum, known) ↦
            let (sorted, tallied) =
              record_tasks-IsTallied one_task (record_attempts one_task checksum runs task.attempts)
                tasks out
                (λ s. n s + sum_of g (filter (is_exact_for s (some checksum)) task.attempts))
                (record_attempts-IsTallied one_task checksum runs task.attempts n h)
                (rw (record_tasks, known) at e) in
            (
              sorted,
              λ s. (
                (tallied s).0,
                rw known (
                    omega (
                      arith,
                      (tallied s).1,
                      sum_of-append g (filter (is_exact_for s (some checksum)) task.attempts)
                          (exact_attempts s tasks),
                    )),
              ),
            )
      ]
