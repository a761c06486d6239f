-- ===== src/Compare/Selection/Laws.antt =====
-- What the selectors of bin/nanoeval/src/compare.rs select.
use nanoeval.Prelude.Dict.{Dict, keys}
use nanoeval.Prelude.{
  Bool, Bool-cases, List, List-cases, Option, Option-cases, String, [], ap, arith, eq_iff, false,
  filter, inl, inr, none, not, ok, ok_or, refl, some, str_eq, subst, true, ◌∙◌, ◌∷◌, ◌≡◌, contains,
}
use nanoeval.Compare.{TaskScore, no_local_attempts, CompareError}
use nanoeval.Compare.Local.{LocalJob, LocalAttempt}
use nanoeval.Compare.Selection.{
  select_task, find_first, first?, pick_attempt, single_task, default_attempt,
}
use nanoeval.Prelude.Members.{Memᴰ-filter_to}
use mathlib.Core.List.{Memᴰ}

-- A name that fails a test is not one that passes it.
other_name :
    (first name : String) (p : String → Bool)
    → p first ≡ false
    → p name ≡ true
    → str_eq first name ≡ false
other_name first name p bad good = elim (Bool-cases (str_eq first name)) [
  | inr apart ↦ apart
  | inl equal ↦ absurd (cc (bad, good, ap p ((eq_iff first name).0 equal)))
]

no_entry :
    {V : Type 0} (p : String → Bool) (m : Dict V) (name : String)
    → filter p (keys m) ≡ []
    → p name ≡ true
    → filter (λ e. str_eq (e.0) name) m ≡ []
no_entry p [] name h good = refl
no_entry p ((first, v) ∷ later) name h good = elim (Bool-cases (p first)) [
  | inl kept ↦ absurd (cc (rw kept at h))
  | inr dropped ↦
      rw (other_name first name p dropped good) (no_entry p later name (rw dropped at h) good)
]

-- Where one key passes a test, one entry has that key.
one_entry :
    {V : Type 0} (p : String → Bool) (m : Dict V) (name : String)
    → filter p (keys m) ≡ name ∷ []
    → p name ≡ true
    → (v : V) × (filter (λ e. str_eq (e.0) name) m ≡ (name, v) ∷ [])
one_entry p [] name h good = absurd (cc)
one_entry p ((first, v) ∷ later) name h good = elim (Bool-cases (p first)) [
  | inl kept ↦
      let cut = rw kept at h in
      let same_name : first ≡ name = cc cut in
      let others : filter p (keys later) ≡ [] = cc cut in
      (v, rw ((eq_iff first name).1 same_name) (cc (no_entry p later name others good, same_name)))
  | inr dropped ↦
      let apart : str_eq first name ≡ false = other_name first name p dropped good in
      let (w, found) = one_entry p later name (rw dropped at h) good in (w, rw apart found)
]

-- A task selector that succeeds leaves one task, the only one of the job whose name contains the
-- text, with its score; the observed trials are then counted over its attempts.
pub select_task-IsSelected :
    {E : Type 0} (needle : String) (job selected : LocalJob)
    → select_task {E = E} needle job ≡ ok selected
    → (task : String) × (score : TaskScore) × (filter
          (λ name. contains name needle)
          (keys job.tasks)
        ≡ task ∷ [])
      × (selected.tasks ≡ (task, score) ∷ [])
      × Memᴰ (task, score) job.tasks
      × (single_task {E = E} selected ≡ ok score)
unfolding select_task single_task
select_task-IsSelected needle job selected h =
    elim (List-cases (filter (λ name. contains name needle) (keys job.tasks))) [
      | inl nothing ↦ absurd (cc (rw (select_task, nothing) at h))
      | inr (task, another ∷ more, several) ↦ absurd (cc (rw (select_task, several) at h))
      | inr (task, [], one) ↦
          let built = rw (select_task, one) at h in
          let (listed, good) =
            Memᴰ-filter_to (λ name. contains name needle) task (keys job.tasks)
              (rw one (Memᴰ.head refl)) in
          let (score, kept) = one_entry (λ name. contains name needle) job.tasks task one good in
          let tasks : selected.tasks ≡ (task, score) ∷ [] = (cc built) ∙ kept in
          let (there, same_name) =
            Memᴰ-filter_to (λ e. str_eq (e.0) task) (task, score) job.tasks
              (rw kept (Memᴰ.head refl)) in
          (task, score, one, tasks, there, rw (single_task, tasks) refl)
    ]

find_first-eq-none :
    {A : Type 0} (p : A → Bool) (xs : List A) (x : A)
    → find_first p xs ≡ none
    → Memᴰ x xs
    → p x ≡ false
find_first-eq-none p [] x h m = elim m [ ]
find_first-eq-none p (y ∷ ys) x h m = elim (Bool-cases (p y)) [
  | inl good ↦ absurd (cc (rw good at h))
  | inr bad ↦ elim m [
    | Memᴰ.head e ↦ ap p e ∙ bad
    | Memᴰ.tail later ↦ find_first-eq-none p ys x (rw bad at h) later
  ]
]

find_first-eq-some :
    {A : Type 0} (p : A → Bool) (xs : List A) (x : A)
    → find_first p xs ≡ some x
    → Memᴰ x xs × (p x ≡ true)
find_first-eq-some p [] x h = absurd (cc)
find_first-eq-some p (y ∷ ys) x h = elim (Bool-cases (p y)) [
  | inl good ↦
      let same_item : x ≡ y = cc (rw good at h) in (Memᴰ.head same_item, ap p same_item ∙ good)
  | inr bad ↦
      let (listed, found) = find_first-eq-some p ys x (rw bad at h) in (Memᴰ.tail listed, found)
]

first_listed :
    {E : Type 0} (attempts : List LocalAttempt) (attempt : LocalAttempt)
    → ok_or {E = CompareError E} (first? attempts) no_local_attempts ≡ ok attempt
    → Memᴰ attempt attempts
first_listed [] attempt h = absurd (cc)
first_listed (a ∷ attempts) attempt h = Memᴰ.head (cc)

-- Without a selector the attempt that is shown is one of the attempts, and it is a failed one unless
-- all of them passed; with a selector it is the only attempt whose name contains the text.
pub pick_attempt-IsPicked :
    {E : Type 0} (selector : Option String) (attempts : List LocalAttempt) (attempt : LocalAttempt)
    → pick_attempt {E = E} selector attempts ≡ ok attempt
    → Memᴰ attempt attempts
      × (selector ≡ none
          → (attempt.passed ≡ true)
          → (a : LocalAttempt) → Memᴰ a attempts
          → a.passed ≡ true)
      × ((text : String)
          → selector ≡ some text
          → filter (λ a. contains a.trial_name text) attempts ≡ attempt ∷ [])
unfolding pick_attempt
pick_attempt-IsPicked none attempts attempt h =
    elim (Option-cases (find_first (λ a. not a.passed) attempts)) [
      | inr (failed_one, found) ↦
          let value : failed_one ≡ attempt = cc (rw (pick_attempt, default_attempt, found) at h) in
          let (listed, bad) = find_first-eq-some (λ a. not a.passed) attempts failed_one found in
          (
            subst (λ a. Memᴰ a attempts) value listed,
            λ e good. absurd (ground (arith, value, bad, good)),
            λ text e. absurd (cc),
          )
      | inl nothing ↦
          let picked = rw (pick_attempt, default_attempt, nothing) at h in
          (
            first_listed attempts attempt picked,
            λ e good a listed.
                ground (arith, find_first-eq-none (λ a. not a.passed) attempts a nothing listed),
            λ text e. absurd (cc),
          )
    ]
pick_attempt-IsPicked (some text) attempts attempt h =
    elim (List-cases (filter (λ a. contains a.trial_name text) attempts)) [
      | inl nothing ↦ absurd (cc (rw (pick_attempt, nothing) at h))
      | inr (first, another ∷ more, several) ↦ absurd (cc (rw (pick_attempt, several) at h))
      | inr (first, [], one) ↦
          let value : first ≡ attempt = cc (rw (pick_attempt, one) at h) in
          let (listed, good) =
            Memᴰ-filter_to (λ a. contains a.trial_name text) first attempts
              (rw one (Memᴰ.head refl)) in
          (
            subst (λ a. Memᴰ a attempts) value listed,
            λ e. absurd (cc),
            λ wanted e.
                let same_text : text ≡ wanted = cc in
                subst (λ t. filter (λ a. contains a.trial_name t) attempts ≡ attempt ∷ []) same_text
                  (one ∙ ap (λ a. a ∷ []) value),
          )
    ]
