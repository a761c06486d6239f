-- ===== src/Harbor/Groups.antt =====
-- The groups of trials for which crates/nanoeval-harbor/src/lib.rs computes no pass@k.
use nanoeval.Harbor.{get_or_else}
use nanoeval.Prelude.Dict.{lookup, Dict, lookup-insert}
use mathlib.Core.List.{Memᴰ}
use nanoeval.Harbor.Passes.{
  Arithmetic, HarborPassAtKTrial, TrialEntry, add_trial, eval_key_of, join_group, success_of,
  group_trials,
}
use nanoeval.Prelude.{
  Bool-cases, inl, inr, true, ℕ, ◌≡◌, ap, sym, Bool, List, Option, Result, String, [], err, false,
  none, ok, refl, some, ◌↔◌, ◌∷◌, ◌⊎◌, Result-cases, eq_iff, str_eq, subst,
}

-- The trials that the directory holds, in the order of the listing.
abbrev pub trials_in :
    {R E : Type 0} → List (Result (TrialEntry R E) E) → List (HarborPassAtKTrial R)
trials_in [] = []
trials_in (err error ∷ later) = trials_in later
trials_in (ok entry ∷ later) = elim entry.is_dir [
  | ok true ↦ elim entry.trial [
    | ok (some trial) ↦ trial ∷ trials_in later
    | ok none ↦ trials_in later
    | err error ↦ trials_in later
  ]
  | ok false ↦ trials_in later
  | err error ↦ trials_in later
]

some_injective : {A : Type 0} {a b : A} → some a ≡ some b → a ≡ b
some_injective e = cc

get_or-eq-none :
    (old : Option (Option (Dict (List ℕ))))
    → (get_or_else old (some []) ≡ none → old ≡ some none)
      × (old ≡ some none → get_or_else old (some []) ≡ none)
get_or-eq-none none = (λ e. absurd (cc), λ e. absurd (cc))
get_or-eq-none (some none) = (λ e. refl, λ e. refl)
get_or-eq-none (some (some tasks)) = (λ e. absurd (cc), λ e. absurd (cc))

module _ {F R : Type 0} (f64 : Arithmetic F) (is_zero is_one : R → Bool) where
  -- A trial of this agent, model and source whose reward is neither 0 nor 1.
  abbrev pub IsPartial : String → HarborPassAtKTrial R → Type 0
  IsPartial key trial =
      (eval_key_of trial ≡ key) × (success_of f64 is_zero is_one trial.rewards ≡ none)

  Fate : String → Dict (Option (Dict (List ℕ))) → List (HarborPassAtKTrial R) → Type 0
  Fate key groups trials =
      (lookup key groups ≡ some none)
      ⊎ ((t : HarborPassAtKTrial R) × Memᴰ t trials × IsPartial key t)

  join_group-eq-none :
      (name : String) (success : Option ℕ) (group : Option (Dict (List ℕ)))
      → (join_group f64 is_zero is_one name success group ≡ none)
        ↔ ((success ≡ none) ⊎ (group ≡ none))
  join_group-eq-none name none group = (λ e. inl refl, λ e. refl)
  join_group-eq-none name (some n) none = (λ e. inr refl, λ e. refl)
  join_group-eq-none name (some n) (some tasks) =
      (λ e. absurd (cc), λ e. elim e [ inl p ↦ absurd (cc) | inr p ↦ absurd (cc) ])

  add_trial-Fate :
      (key : String) (t : HarborPassAtKTrial R) (groups : Dict (Option (Dict (List ℕ))))
      → (lookup key (add_trial f64 is_zero is_one t groups) ≡ some none)
        ↔ ((lookup key groups ≡ some none) ⊎ IsPartial key t)
  unfolding add_trial
  add_trial-Fate key t groups =
      let success = success_of f64 is_zero is_one t.rewards in
      let old = get_or_else (lookup (eval_key_of t) groups) (some []) in
      let (joined, joins) = join_group-eq-none t.task_name success old in
      let (was, be) = get_or-eq-none (lookup (eval_key_of t) groups) in
      elim (Bool-cases (str_eq (eval_key_of t) key)) [
        | inr apart ↦
            rw
              (lookup-insert groups (eval_key_of t)
                (join_group f64 is_zero is_one t.task_name success old) key)
              (rw apart (
                (λ e. inl e),
                λ e. elim e [
                  | inl h ↦ h
                  | inr h ↦ absurd (cc ((eq_iff (eval_key_of t) key).1 h.0))
                ],
              ))
        | inl equal ↦
            let same = (eq_iff (eval_key_of t) key).0 equal in
            rw
              (lookup-insert groups (eval_key_of t)
                (join_group f64 is_zero is_one t.task_name success old) key)
              (rw equal (
                (λ e. elim (joined (some_injective e)) [
                  | inl partial ↦ inr (same, partial)
                  | inr before ↦ inl (subst (λ k. lookup k groups ≡ some none) same (was before))
                ]),
                λ e. ap some (
                    joins (elim e [
                      | inl before ↦
                          inr (be (subst (λ k. lookup k groups ≡ some none) (sym same) before))
                      | inr partial ↦ inl partial.1
                    ])),
              ))
      ]

  add_trials :
      List (HarborPassAtKTrial R) → Dict (Option (Dict (List ℕ))) → Dict (Option (Dict (List ℕ)))
  add_trials [] groups = groups
  add_trials (t ∷ later) groups = add_trials later (add_trial f64 is_zero is_one t groups)

  add_trials-Fate :
      (key : String) (trials : List (HarborPassAtKTrial R)) (groups : Dict (Option (Dict (List ℕ))))
      → (lookup key (add_trials trials groups) ≡ some none) ↔ Fate key groups trials
  unfolding add_trials Fate
  add_trials-Fate key [] groups = (λ e. inl e, λ e. elim e [ inl h ↦ h | inr h ↦ elim h.1 [ ] ])
  add_trials-Fate key (t ∷ later) groups =
      let (to, from) = add_trials-Fate key later (add_trial f64 is_zero is_one t groups) in
      let (to', from') = add_trial-Fate key t groups in
      (
        λ e. elim (to e) [
          | inl added ↦ elim (to' added) [
            | inl before ↦ inl before
            | inr partial ↦ inr (t, Memᴰ.head refl, partial)
          ]
          | inr (u, m, partial) ↦ inr (u, Memᴰ.tail m, partial)
        ],
        λ e. from (elim e [
          | inl before ↦ inl (from' (inl before))
          | inr (u, Memᴰ.head same, partial) ↦
              inl (from' (inr (subst (λ v. IsPartial key v) same partial)))
          | inr (u, Memᴰ.tail m, partial) ↦ inr (u, m, partial)
        ]),
      )

  group_trials-add_trials :
      {E : Type 0} (entries : List (Result (TrialEntry R E) E))
      (groups out : Dict (Option (Dict (List ℕ))))
      → group_trials f64 is_zero is_one entries groups ≡ ok out
      → out ≡ add_trials (trials_in entries) groups
  unfolding group_trials add_trials
  group_trials-add_trials [] groups out h = cc
  group_trials-add_trials (err error ∷ later) groups out h = absurd (cc)
  group_trials-add_trials (ok entry ∷ later) groups out h = elim (Result-cases entry.is_dir) [
    | inr (error, bad) ↦ absurd (cc (rw (bad, group_trials) at h))
    | inl (false, plain) ↦
        rw plain (group_trials-add_trials later groups out (rw (plain, group_trials) at h))
    | inl (true, directory) ↦ elim (Result-cases entry.trial) [
      | inr (error, bad) ↦ absurd (cc (rw bad at (rw (directory, group_trials) at h)))
      | inl (none, nothing) ↦ rw directory (
          rw nothing (
            group_trials-add_trials later groups out
              (rw nothing at (rw (directory, group_trials) at h))))
      | inl (some t, read) ↦ rw directory (
          rw read (
            group_trials-add_trials later (add_trial f64 is_zero is_one t groups) out
              (rw read at (rw (directory, group_trials) at h))))
    ]
  ]

  -- A group is left out exactly when one of its trials has another reward than 0 or 1, wherever in
  -- the listing this trial stands.
  pub group_trials-IsPartial :
      {E : Type 0} (entries : List (Result (TrialEntry R E) E))
      (groups : Dict (Option (Dict (List ℕ)))) (key : String)
      → group_trials f64 is_zero is_one entries [] ≡ ok groups
      → (lookup key groups ≡ some none)
        ↔ ((t : HarborPassAtKTrial R) × Memᴰ t (trials_in entries) × IsPartial key t)
  unfolding Fate lookup
  group_trials-IsPartial entries groups key h =
      let same = group_trials-add_trials entries [] groups h in
      let (to, from) = add_trials-Fate key (trials_in entries) [] in
      (
        λ e. elim (to (rw (← same) e)) [ inl nothing ↦ absurd (cc) | inr found ↦ found ],
        λ e. rw same (from (inr e)),
      )
