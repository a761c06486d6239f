-- ===== src/Retry/Best.antt =====
-- What the statuses of trials come to in bin/nanoeval/src/eval.rs, one task at a time.
use nanoeval.Prelude.Dict.{lookup, Dict, lookup-insert}
use nanoeval.Prelude.{
  ℕ, Bool, List, Option, Result, String, [], arith, err, inl, inr, none, ok, refl, some, ◌∷◌, ◌≡◌,
  ◌≢◌, ◌≤◌, ◌⊎◌, Bool-cases, ap, eq_iff, if◌then◌else◌, str_eq, subst, sym, ◌∙◌,
}
use nanoeval.Retry.{
  merge, entry_trials, RetainedEntry, RetainedTrialStatus, errored, failed, passed, refused, joined,
  note_status, status,
}
use mathlib.Core.List.{Memᴰ}

-- How good a status is: 0 is the best.
abbrev pub rank : RetainedTrialStatus → ℕ
rank passed = 0
rank failed = 1
rank refused = 2
rank errored = 3

pub merge_best :
    (a b : RetainedTrialStatus)
    → ((merge a b ≡ a) ⊎ (merge a b ≡ b))
      × (rank (merge a b) ≤ rank a)
      × (rank (merge a b) ≤ rank b)
unfolding merge
merge_best passed b = (inl refl, omega arith, omega arith)
merge_best failed passed = (inr refl, omega arith, omega arith)
merge_best failed failed = (inl refl, omega arith, omega arith)
merge_best failed refused = (inl refl, omega arith, omega arith)
merge_best failed errored = (inl refl, omega arith, omega arith)
merge_best refused passed = (inr refl, omega arith, omega arith)
merge_best refused failed = (inr refl, omega arith, omega arith)
merge_best refused refused = (inl refl, omega arith, omega arith)
merge_best refused errored = (inl refl, omega arith, omega arith)
merge_best errored passed = (inr refl, omega arith, omega arith)
merge_best errored failed = (inr refl, omega arith, omega arith)
merge_best errored refused = (inr refl, omega arith, omega arith)
merge_best errored errored = (inl refl, omega arith, omega arith)

-- The trials of a listing: the directories with a result, in the order of the listing.
abbrev pub trials_of :
    {Reward E : Type 0}
    → (Reward → Bool)
    → List (Result (RetainedEntry Reward E) E)
    → List (String × RetainedTrialStatus)
trials_of positive [] = []
trials_of positive (err error ∷ entries) = []
trials_of positive (ok entry ∷ entries) = elim (entry_trials positive entry) [
  | ok none ↦ trials_of positive entries
  | ok (some trial) ↦ trial ∷ trials_of positive entries
  | err error ↦ []
]

-- A task has the best status of its trials, and a status only if it has a trial.
pub record IsBest (name : String) (trials : List (String × RetainedTrialStatus))
    (status : Option RetainedTrialStatus) : Type 0 where
  pub shown : (s : RetainedTrialStatus) → status ≡ some s → Memᴰ (name, s) trials
  pub best : (s t : RetainedTrialStatus) → status ≡ some s → Memᴰ (name, t) trials → rank s ≤ rank t
  pub counted : (t : RetainedTrialStatus) → Memᴰ (name, t) trials → status ≢ none

-- The same, beside a status that is there already.
pub record IsBestOf (name : String) (old : Option RetainedTrialStatus)
    (trials : List (String × RetainedTrialStatus)) (status : Option RetainedTrialStatus)
    : Type 0 where
  pub shown : (s : RetainedTrialStatus) → status ≡ some s → (old ≡ some s) ⊎ Memᴰ (name, s) trials
  pub best :
      (s t : RetainedTrialStatus)
      → status ≡ some s
      → (old ≡ some t) ⊎ Memᴰ (name, t) trials
      → rank s ≤ rank t
  pub counted : (t : RetainedTrialStatus) → (old ≡ some t) ⊎ Memᴰ (name, t) trials → status ≢ none

pub joined_best :
    (old : Option RetainedTrialStatus) (s : RetainedTrialStatus)
    → ((old ≡ some (joined old s)) ⊎ (joined old s ≡ s))
      × ((r : RetainedTrialStatus) → old ≡ some r → rank (joined old s) ≤ rank r)
      × (rank (joined old s) ≤ rank s)
joined_best none s = (inr refl, λ r e. absurd (cc), omega arith)
joined_best (some old) s =
    let (either, left, right) = merge_best old s in
    (
      elim either [ inl e ↦ inl (ap some (sym e)) | inr e ↦ inr e ],
      λ r e. let same_status : old ≡ r = cc in rw (← same_status) left,
      right,
    )

module _ (name : String) (old : Option RetainedTrialStatus) (s : RetainedTrialStatus)
    (rest : List (String × RetainedTrialStatus)) (status : Option RetainedTrialStatus) where
  pub IsBestOf-named :
      (key : String)
      → key ≡ name
      → IsBestOf name (some (joined old s)) rest status
      → IsBestOf name old ((key, s) ∷ rest) status
  IsBestOf-named key same h =
      let (either, left, right) = joined_best old s in
      let entry : ◌≡◌ {A = String × RetainedTrialStatus} (name, joined old s) (name, joined old s) =
        refl in
      let counted : (t : RetainedTrialStatus)
          → (old ≡ some t) ⊎ Memᴰ (name, t) ((key, s) ∷ rest)
          → status ≢ none =
        λ t e none_shown. h.counted (joined old s) (inl refl) none_shown in
      record {
        shown = λ r e. elim (h.shown r e) [
          | inr listed ↦ inr (Memᴰ.tail listed)
          | inl joint ↦ elim either [
            | inl kept ↦ inl (kept ∙ joint)
            | inr taken ↦ let value : r ≡ s = cc in inr (Memᴰ.head (λ i. (sym same i, value i)))
          ]
        ];
        best = λ r t e m. elim m [
          | inl before ↦ omega (arith, h.best r (joined old s) e (inl refl), left t before)
          | inr (Memᴰ.head p) ↦
              let value : t ≡ s = ap (λ q. q.1) p in
              rw value (omega (arith, h.best r (joined old s) e (inl refl), right))
          | inr (Memᴰ.tail listed) ↦ h.best r t e (inr listed)
        ];
        counted = counted;
      }

  pub IsBestOf-other :
      (key : String)
      → key ≢ name
      → IsBestOf name old rest status
      → IsBestOf name old ((key, s) ∷ rest) status
  IsBestOf-other key apart h = record {
    shown =
        λ r e. elim (h.shown r e) [ inl before ↦ inl before | inr listed ↦ inr (Memᴰ.tail listed) ];
    best = λ r t e m. elim m [
      | inl before ↦ h.best r t e (inl before)
      | inr (Memᴰ.head p) ↦ absurd (apart (sym (ap (λ q. q.0) p)))
      | inr (Memᴰ.tail listed) ↦ h.best r t e (inr listed)
    ];
    counted = λ t m e. elim m [
      | inl before ↦ h.counted t (inl before) e
      | inr (Memᴰ.head p) ↦ absurd (apart (sym (ap (λ q. q.0) p)))
      | inr (Memᴰ.tail listed) ↦ h.counted t (inr listed) e
    ];
  }

pub lookup-note_status :
    (statuses : Dict RetainedTrialStatus) (key : String) (s : RetainedTrialStatus) (name : String)
    → lookup name (note_status statuses (key, s))
      ≡ (if str_eq key name then some (joined (lookup key statuses) s) else lookup name statuses)
unfolding note_status
lookup-note_status statuses key s name =
    lookup-insert statuses key (joined (lookup key statuses) s) name

pub note_status-IsBestOf :
    (statuses : Dict RetainedTrialStatus) (key : String) (s : RetainedTrialStatus) (name : String)
    (rest : List (String × RetainedTrialStatus)) (status : Option RetainedTrialStatus)
    → IsBestOf name (lookup name (note_status statuses (key, s))) rest status
    → IsBestOf name (lookup name statuses) ((key, s) ∷ rest) status
note_status-IsBestOf statuses key s name rest status h =
    let found = lookup-note_status statuses key s name in
    elim (Bool-cases (str_eq key name)) [
      | inl equal ↦
          let same : key ≡ name = (eq_iff key name).0 equal in
          let after : lookup name (note_status statuses (key, s))
              ≡ some (joined (lookup name statuses) s) =
            found
            ∙ ap
                (λ (b : Bool).
                  if b then some (joined (lookup key statuses) s) else lookup name statuses)
                equal
            ∙ ap (λ k. some (joined (lookup k statuses) s)) same in
          IsBestOf-named name (lookup name statuses) s rest status key same
            (subst (λ o. IsBestOf name o rest status) after h)
      | inr apart ↦
          let after : lookup name (note_status statuses (key, s)) ≡ lookup name statuses =
            found
            ∙ ap
                (λ (b : Bool).
                  if b then some (joined (lookup key statuses) s) else lookup name statuses)
                apart in
          IsBestOf-other name (lookup name statuses) s rest status key
            (λ e. absurd (cc ((eq_iff key name).1 e)))
            (subst (λ o. IsBestOf name o rest status) after h)
    ]
