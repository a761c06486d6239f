-- ===== src/Compare/Published/Names.antt =====
-- Which tasks a published run of bin/nanoeval/src/compare.rs has scores for.
use nanoeval.Prelude.{
  Bool, Bool-cases, List, Option, Option-cases, String, [], any, ap, arith, eq_iff, false, filter,
  if◌then◌else◌, inl, inr, is_present, ok, refl, some, str_eq, subst, true, ◌&&◌, ◌++◌, ◌||◌, ◌∙◌,
  ◌∷◌, ◌≡◌,
}
use nanoeval.Prelude.Dict.{insert, lookup, lookup-insert}
use nanoeval.Archive.{PublishedAttempt, PublishedAttempts}
use nanoeval.Compare.{or_insert}
use nanoeval.Compare.Published.{
  PublishedRun, Runs, empty_run, published_score, record_attempt, record_attempts, record_published,
  record_tasks,
}
use nanoeval.Compare.Published.Tallies.{exact_attempts, is_exact_for, tasks_of}

-- An attempt at the task of this name.
abbrev pub has_attempt : String → List PublishedAttempt → Bool
has_attempt name attempts = any (λ a. str_eq a.task_name name) attempts

-- The submissions and names for which the runs have a score.
abbrev pub IsNamed : Runs → (String → String → Bool) → Type 0
IsNamed runs seen =
    (submission name : String)
    → is_present (lookup name (tasks_of (lookup submission runs.exact_runs))) ≡ seen submission name

is_present-if :
    {A : Type 0} (b : Bool) (a : A) (m : Option A)
    → is_present (if b then some a else m) ≡ (b || is_present m)
is_present-if false a m = refl
is_present-if true a m = refl

any-append :
    {A : Type 0} (p : A → Bool) (xs ys : List A) → any p (xs ++ ys) ≡ (any p xs || any p ys)
any-append p [] ys = refl
any-append p (x ∷ xs) ys = ground (arith, any-append p xs ys)

record_published-present :
    (run : PublishedRun) (attempt : PublishedAttempt) (name : String)
    → is_present (lookup name (record_published run attempt).tasks)
      ≡ (str_eq attempt.task_name name || is_present (lookup name run.tasks))
unfolding record_published
record_published-present run attempt name =
    ap is_present
      (lookup-insert run.tasks attempt.task_name (published_score run.tasks attempt) name)
    ∙ is_present-if (str_eq attempt.task_name name) (published_score run.tasks attempt)
        (lookup name run.tasks)

record_attempt-IsNamed :
    (one_task : Bool) (checksum : String) (runs : Runs) (attempt : PublishedAttempt)
    (seen : String → String → Bool)
    → IsNamed runs seen
    → IsNamed (record_attempt one_task checksum runs attempt) (λ s name.
      (is_exact_for s (some checksum) attempt && str_eq attempt.task_name name) || seen s name)
unfolding record_attempt
record_attempt-IsNamed one_task checksum runs attempt seen h s name =
    elim (Bool-cases (str_eq attempt.task_checksum checksum)) [
      | inr differs ↦ elim (Bool-cases one_task) [
        | inl one ↦ rw (record_attempt, differs) (rw one (h s name))
        | inr several ↦ rw (record_attempt, differs) (rw several (h s name))
      ]
      | inl exact ↦
          let old = or_insert (lookup attempt.submission runs.exact_runs) empty_run in
          let new = record_published old attempt in
          let found = lookup-insert runs.exact_runs attempt.submission new s in
          elim (Bool-cases (str_eq attempt.submission s)) [
            | inl equal ↦
                let same_name = (eq_iff attempt.submission s).0 equal in
                let after : lookup s (insert attempt.submission new runs.exact_runs) ≡ some new =
                  found
                  ∙ ap (λ (b : Bool). if b then some new else lookup s runs.exact_runs) equal in
                rw (record_attempt, exact)
                  (rw equal (
                    rw after (
                      record_published-present old attempt name
                      ∙ ap (λ b. str_eq attempt.task_name name || b)
                          (h attempt.submission name ∙ ap (λ t. seen t name) same_name))))
            | inr apart ↦
                let after : lookup s (insert attempt.submission new runs.exact_runs)
                    ≡ lookup s runs.exact_runs =
                  found
                  ∙ ap (λ (b : Bool). if b then some new else lookup s runs.exact_runs) apart in
                rw (record_attempt, exact) (rw apart (rw after (h s name)))
          ]
    ]

record_attempts-IsNamed :
    (one_task : Bool) (checksum : String) (runs : Runs) (attempts : List PublishedAttempt)
    (seen : String → String → Bool)
    → IsNamed runs seen
    → IsNamed (record_attempts one_task checksum runs attempts) (λ s name.
      seen s name || has_attempt name (filter (is_exact_for s (some checksum)) attempts))
unfolding record_attempts
record_attempts-IsNamed one_task checksum runs [] seen h s name = ground (arith, h s name)
record_attempts-IsNamed one_task checksum runs (attempt ∷ later) seen h s name =
    let ih =
      record_attempts-IsNamed one_task checksum (record_attempt one_task checksum runs attempt)
        later
        (λ t other.
          (is_exact_for t (some checksum) attempt && str_eq attempt.task_name other)
          || seen t other)
        (record_attempt-IsNamed one_task checksum runs attempt seen h) s name in
    ih ∙ one_more (is_exact_for s (some checksum)) attempt later (seen s name) name
  where
    one_more :
        (p : PublishedAttempt → Bool) (a : PublishedAttempt) (later : List PublishedAttempt)
        (b : Bool) (name : String)
        → (((p a && str_eq a.task_name name) || b) || has_attempt name (filter p later))
          ≡ (b || has_attempt name (filter p (a ∷ later)))
    one_more p a later b name = ground arith

pub record_tasks-IsNamed :
    {E : Type 0} (one_task : Bool) (runs : Runs) (tasks : List PublishedAttempts) (out : Runs)
    (seen : String → String → Bool)
    → IsNamed runs seen
    → record_tasks {E = E} one_task runs tasks ≡ ok out
    → IsNamed out (λ s name. seen s name || has_attempt name (exact_attempts s tasks))
unfolding record_tasks
record_tasks-IsNamed one_task runs [] out seen h e s name =
    let done : runs ≡ out = cc in
    subst
      (λ r. is_present (lookup name (tasks_of (lookup s r.exact_runs))) ≡ (seen s name || false))
      done (ground (arith, h s name))
record_tasks-IsNamed one_task runs (task ∷ tasks) out seen h e s name =
    elim (Option-cases task.requested_checksum) [
      | inl lost ↦ absurd (cc (rw (record_tasks, lost) at e))
      | inr (checksum, known) ↦
          let ih =
            record_tasks-IsNamed one_task (record_attempts one_task checksum runs task.attempts)
              tasks out
              (λ t other.
                seen t other
                || has_attempt other (filter (is_exact_for t (some checksum)) task.attempts))
              (record_attempts-IsNamed one_task checksum runs task.attempts seen h)
              (rw (record_tasks, known) at e) s name in
          let joined =
            any-append (λ a. str_eq a.task_name name)
              (filter (is_exact_for s (some checksum)) task.attempts) (exact_attempts s tasks) in
          rw known (ih ∙ ground (arith, joined))
    ]
