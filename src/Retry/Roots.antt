-- ===== src/Retry/Roots.antt =====
-- The task definitions that `retained_retry_task_roots` of bin/nanoeval/src/eval.rs finds.
use nanoeval.Prelude.{
  All, Bool-cases, List, Option-cases, Result, Result-cases, String, [], any, ap, filter, inl, inr,
  map, ok, refl, str_eq, subst, sym, true, ◌∷◌, ◌≡◌,
}
use nanoeval.Prelude.Paths.{FilePath}
use nanoeval.Prelude.Dict.{Dict, insert, lookup, values}
use nanoeval.Prelude.Dict.Ordered.{All-insert, All-Memᴰ, lookup-Memᴰ}
use nanoeval.Prelude.Members.{Memᴰ-filter_from}
use nanoeval.Retry.{retained_retry_task_roots, add_roots, is_missing, report_missing, roots_of_jobs}
use mathlib.Core.List.{Memᴰ}

-- The task at the root has this name, and the name is among those selected.
abbrev pub IsSelectedTask :
    {E : Type 0} → (FilePath → Result String E) → List String → String × FilePath → Type 0
IsSelectedTask load selected (name, root) =
    (load root ≡ ok name) × (any (λ s. str_eq s name) selected ≡ true)

module _ {E : Type 0} (run : FilePath → Result (List FilePath) E)
    (load : FilePath → Result String E) (selected : List String) where
  add_roots-IsSelectedTask :
      (roots : Dict FilePath) (tasks : List FilePath) (out : Dict FilePath)
      → All (IsSelectedTask load selected) roots
      → add_roots run load selected roots tasks ≡ ok out
      → All (IsSelectedTask load selected) out
  unfolding add_roots
  add_roots-IsSelectedTask roots [] out a h =
      let done : roots ≡ out = cc in subst (All (IsSelectedTask load selected)) done a
  add_roots-IsSelectedTask roots (task ∷ tasks) out a h = elim (Result-cases (load task)) [
    | inr (error, bad) ↦ absurd (cc (rw (add_roots, bad) at h))
    | inl (name, loaded) ↦ elim (Bool-cases (any (λ s. str_eq s name) selected)) [
      | inl chosen ↦
          add_roots-IsSelectedTask (insert name task roots) tasks out
            (All-insert (IsSelectedTask load selected) name task roots (loaded, chosen) a)
            (rw chosen at rw (add_roots, loaded) at h)
      | inr other_task ↦
          add_roots-IsSelectedTask roots tasks out a (rw other_task at rw (add_roots, loaded) at h)
    ]
  ]

  roots_of_jobs-IsSelectedTask :
      (roots : Dict FilePath) (jobs : List FilePath) (out : Dict FilePath)
      → All (IsSelectedTask load selected) roots
      → roots_of_jobs run load selected roots jobs ≡ ok out
      → All (IsSelectedTask load selected) out
  unfolding roots_of_jobs
  roots_of_jobs-IsSelectedTask roots [] out a h =
      let done : roots ≡ out = cc in subst (All (IsSelectedTask load selected)) done a
  roots_of_jobs-IsSelectedTask roots (job ∷ jobs) out a h = elim (Result-cases (run job)) [
    | inr (error, bad) ↦ absurd (cc (rw (roots_of_jobs, bad) at h))
    | inl (tasks, read) ↦ elim (Result-cases (add_roots run load selected roots tasks)) [
      | inr (error, bad) ↦ absurd (cc (rw bad at rw (roots_of_jobs, read) at h))
      | inl (more, added) ↦
          roots_of_jobs-IsSelectedTask more jobs out
            (add_roots-IsSelectedTask roots tasks more a added)
            (rw added at rw (roots_of_jobs, read) at h)
    ]
  ]

  -- Nothing is missing when the roots are reported.
  report_missing-ok :
      (roots : Dict FilePath) (missing : List String) (out : List FilePath)
      → report_missing run load roots missing ≡ ok out
      → (missing ≡ []) × (out ≡ map (λ e. e.1) roots)
  unfolding report_missing
  report_missing-ok roots [] out h = (refl, cc)
  report_missing-ok roots (name ∷ names) out h = absurd (cc)

  Memᴰ-values :
      (m : Dict FilePath) (name : String) (root : FilePath)
      → Memᴰ (name, root) m
      → Memᴰ root (map (λ e. e.1) m)
  Memᴰ-values [] name root listed = elim listed [ ]
  Memᴰ-values (e ∷ m) name root (Memᴰ.head p) = Memᴰ.head (ap (λ q. q.1) p)
  Memᴰ-values (e ∷ m) name root (Memᴰ.tail p) = Memᴰ.tail (Memᴰ-values m name root p)

  -- When roots are returned, each selected name has one, at which a task of that name is loaded.
  pub retained_retry_task_roots_complete :
      (lineage out : List FilePath)
      → retained_retry_task_roots run load lineage selected ≡ ok out
      → (name : String) → Memᴰ name selected
      → (root : FilePath) × Memᴰ root out × (load root ≡ ok name)
  unfolding retained_retry_task_roots is_missing
  retained_retry_task_roots_complete lineage out h name listed =
      elim (Result-cases (roots_of_jobs run load selected [] lineage)) [
        | inr (error, bad) ↦ absurd (cc (rw (retained_retry_task_roots, bad) at h))
        | inl (roots, found) ↦
            let (nothing, values) =
              report_missing-ok roots (filter (is_missing run load roots) selected) out
                (rw (retained_retry_task_roots, found) at h) in
            elim (Option-cases (lookup name roots)) [
              | inr (root, here) ↦
                  let entry = lookup-Memᴰ name root roots here in
                  let (loaded, chosen) =
                    All-Memᴰ (IsSelectedTask load selected) roots (name, root)
                      (roots_of_jobs-IsSelectedTask [] lineage roots tt found) entry in
                  (root, subst (Memᴰ root) (sym values) (Memᴰ-values roots name root entry), loaded)
              | inl none_here ↦ absurd (
                  elim (subst (Memᴰ name) nothing (
                    Memᴰ-filter_from (is_missing run load roots) name selected listed
                      (rw (is_missing, none_here) refl))) [ ])
            ]
      ]
