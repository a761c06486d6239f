-- ===== src/Retry/Lineage.antt =====
-- What `retained_retry_lineage` of bin/nanoeval/src/eval.rs gives: that it ends, and the chain of
-- jobs it finds.
use nanoeval.Prelude.{
  ℕ, Bool-cases, List, Option-cases, Result-cases, [], any, ap, arith, false, filter, inl, inr,
  length, length-filter-not, none, not, ok, reverse, some, subst, suc, sym, true, zero, ◌++◌, ◌<◌,
  ◌∙◌, ◌∷◌, ◌≡◌, ◌≢◌, ◌≤◌,
}
use nanoeval.Prelude.Paths.{FilePath, path_eq, path_eq_iff}
use nanoeval.Prelude.Distinct.{IsDistinct, IsApart, IsNew, any-eq-false_iff}
use nanoeval.Retry.{
  walk, Retained, load_invocation, parent_of, resolve_parent, retained_retry_lineage,
}
use mathlib.Core.List.{append_assoc, Memᴰ}

abbrev pub self : FilePath → FilePath
self path = path

-- Each job is a retry of the one after it, and the last is a retry of none.
abbrev pub IsChain : {Reward E : Type 0} → Retained Reward E → List FilePath → Type 0
IsChain retained [] = Unit
IsChain retained (job ∷ []) = parent_of retained job ≡ ok none
IsChain retained (job ∷ parent ∷ jobs) =
    (parent_of retained job ≡ ok (some parent)) × IsChain retained (parent ∷ jobs)

IsApart-cons :
    (c : FilePath) (seen jobs : List FilePath)
    → IsApart self (c ∷ seen) jobs
    → IsNew self c jobs × IsApart self seen jobs
IsApart-cons c seen [] h = (tt, tt)
IsApart-cons c seen (job ∷ jobs) h =
    let (fresh, apart) = IsApart-cons c seen jobs h.1 in
    (((λ e. h.0.0 (sym e)), fresh), (h.0.1, apart))

-- The jobs that are not among those seen.
abbrev unseen : List FilePath → List FilePath → ℕ
unseen seen jobs = length (filter (λ job. not (any (λ s. path_eq s job) seen)) jobs)

unseen-cons_le :
    (c : FilePath) (seen jobs : List FilePath) → unseen (c ∷ seen) jobs ≤ unseen seen jobs
unseen-cons_le c seen [] = omega arith
unseen-cons_le c seen (job ∷ jobs) = ground (arith, unseen-cons_le c seen jobs)

unseen-cons_lt :
    (c : FilePath) (seen jobs : List FilePath)
    → Memᴰ c jobs
    → any (λ s. path_eq s c) seen ≡ false
    → unseen (c ∷ seen) jobs < unseen seen jobs
unseen-cons_lt c seen [] m h = elim m [ ]
unseen-cons_lt c seen (job ∷ jobs) (Memᴰ.head e) h =
    let itself : path_eq c job ≡ true = (path_eq_iff c job).1 e in
    let same_test : any (λ s. path_eq s job) seen ≡ false =
      subst (λ j. any (λ s. path_eq s j) seen ≡ false) e h in
    ground (arith, unseen-cons_le c seen jobs)
unseen-cons_lt c seen (job ∷ jobs) (Memᴰ.tail m) h = ground (arith, unseen-cons_lt c seen jobs m h)

module _ {Reward E : Type 0} (retained : Retained Reward E) where
  parent_of-canonicalize :
      (job parent : FilePath)
      → parent_of retained job ≡ ok (some parent)
      → (path : FilePath) × (retained.canonicalize path ≡ ok parent)
  unfolding parent_of resolve_parent
  parent_of-canonicalize job parent h = elim (Result-cases (load_invocation retained job)) [
    | inr (error, bad) ↦ absurd (cc (rw (parent_of, bad) at h))
    | inl (none, found) ↦ absurd (cc (rw (parent_of, found) at h))
    | inl (some run, found) ↦ elim (Option-cases run.rerun_from) [
      | inl missing ↦ absurd (cc (rw (resolve_parent, missing) at rw (parent_of, found) at h))
      | inr (path, named) ↦ elim (Result-cases (retained.canonicalize path)) [
        | inr (error, bad) ↦
            absurd (cc (rw bad at rw (resolve_parent, named) at rw (parent_of, found) at h))
        | inl (resolved, good) ↦
            let read = rw good at rw (resolve_parent, named) at rw (parent_of, found) at h in
            (path, good ∙ (cc read))
      ]
    ]
  ]

  walk-ends :
      (jobs : List FilePath)
      → ((path real : FilePath) → retained.canonicalize path ≡ ok real → Memᴰ real jobs)
      → (fuel : ℕ) (current : FilePath) (seen lineage : List FilePath) → Memᴰ current jobs
      → unseen seen jobs < fuel
      → walk retained fuel current seen lineage ≢ none
  unfolding walk
  walk-ends jobs closed zero current seen lineage m h = absurd (omega arith)
  walk-ends jobs closed (suc fuel) current seen lineage m h =
      elim (Bool-cases (any (λ job. path_eq job current) seen)) [
        | inl again ↦ rw (walk, again) (λ e. absurd (cc))
        | inr fresh ↦
            rw (walk, fresh)
              (elim (Result-cases (parent_of retained current)) [
                | inr (error, bad) ↦ rw bad (λ e. absurd (cc))
                | inl (none, found) ↦ rw found (λ e. absurd (cc))
                | inl (some parent, found) ↦
                    let (path, real) = parent_of-canonicalize current parent found in
                    let fewer = unseen-cons_lt current seen jobs m fresh in
                    rw found (
                      walk-ends jobs closed fuel parent (current ∷ seen) (lineage ++ current ∷ [])
                        (closed path parent real) (omega arith))
              ])
      ]

  -- When the paths that `canonicalize` gives are all in a finite list, as those of a file system
  -- are, the search of the lineage ends within one round more than the list is long, also when
  -- the retained invocations name each other in a circle.
  pub retained_retry_lineage-ends :
      (jobs : List FilePath)
      → ((path real : FilePath) → retained.canonicalize path ≡ ok real → Memᴰ real jobs)
      → (job : FilePath) → retained_retry_lineage retained (suc (length jobs)) job ≢ none
  unfolding retained_retry_lineage
  retained_retry_lineage-ends jobs closed job = elim (Result-cases (retained.canonicalize job)) [
    | inr (error, bad) ↦ rw (retained_retry_lineage, bad) (λ e. absurd (cc))
    | inl (current, real) ↦
        rw (retained_retry_lineage, real)
          (walk-ends jobs closed (suc (length jobs)) current [] [] (closed job current real)
            (omega (arith, length-filter-not (λ j. not (any (λ s. path_eq s j) [])) jobs)))
  ]

  walk-IsChain :
      (fuel : ℕ) (current : FilePath) (seen lineage out : List FilePath)
      → walk retained fuel current seen lineage ≡ some (ok out)
      → (chain : List FilePath) × (out ≡ reverse (lineage ++ current ∷ chain))
        × IsChain retained (current ∷ chain)
        × IsDistinct self (current ∷ chain)
        × IsApart self seen (current ∷ chain)
  unfolding walk
  walk-IsChain zero current seen lineage out h = absurd (cc)
  walk-IsChain (suc fuel) current seen lineage out h =
      elim (Bool-cases (any (λ job. path_eq job current) seen)) [
        | inl again ↦ absurd (cc (rw (walk, again) at h))
        | inr fresh ↦
            let new_job = (any-eq-false_iff self path_eq path_eq_iff current seen).0 fresh in
            elim (Result-cases (parent_of retained current)) [
              | inr (error, bad) ↦ absurd (cc (rw bad at rw (walk, fresh) at h))
              | inl (none, found) ↦
                  let done = rw found at rw (walk, fresh) at h in
                  ([], (cc done), found, (tt, tt), (new_job, tt))
              | inl (some parent, found) ↦
                  let onward = rw found at rw (walk, fresh) at h in
                  let (chain, result, linked, different, apart) =
                    walk-IsChain fuel parent (current ∷ seen) (lineage ++ current ∷ []) out
                      onward in
                  let (not_current, not_seen) = IsApart-cons current seen (parent ∷ chain) apart in
                  (
                    parent ∷ chain,
                    result ∙ ap reverse (append_assoc lineage (current ∷ []) (parent ∷ chain)),
                    (found, linked),
                    (not_current, different),
                    (new_job, not_seen),
                  )
            ]
      ]

  -- A lineage that is found is, read backwards, the chain from the job itself through the job that
  -- each retained invocation names, to a job that is a retry of none; no job is in it twice.
  pub retained_retry_lineage-IsChain :
      (fuel : ℕ) (job : FilePath) (out : List FilePath)
      → retained_retry_lineage retained fuel job ≡ some (ok out)
      → (current : FilePath) × (chain : List FilePath) × (retained.canonicalize job ≡ ok current)
        × (out ≡ reverse (current ∷ chain))
        × IsChain retained (current ∷ chain)
        × IsDistinct self (current ∷ chain)
  unfolding retained_retry_lineage
  retained_retry_lineage-IsChain fuel job out h = elim (Result-cases (retained.canonicalize job)) [
    | inr (error, bad) ↦ absurd (cc (rw (retained_retry_lineage, bad) at h))
    | inl (current, real) ↦
        let (chain, result, linked, different, apart) =
          walk-IsChain fuel current [] [] out (rw (retained_retry_lineage, real) at h) in
        (current, chain, real, result, linked, different)
  ]
