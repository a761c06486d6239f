-- ===== src/Job/Completed.antt =====
-- `completed_attempt` of crates/nanoeval/src/job.rs: which attempts count as done.
use nanoeval.Sweep.{SweepAttempt}
use mathlib.Core.List.{Memᴰ}
use nanoeval.Errors.{IoError}
use nanoeval.Sweep.Prefix.{trial_name, short_name, decimal3, trial_prefix}
use nanoeval.Job.{
  starts_underscored, is_attempt_of, strip_prefix, DirEntry, completed_attempt, find_completed,
  matches_attempt,
}
use nanoeval.Prelude.{
  String, arith, code, some, true, ◌↔◌, ◌≡◌, Bool, Bool-cases, List, Option, Option-cases, Result,
  Result-cases, [], ap, err, false, inl, inr, none, ok, refl, subst, ◌∙◌, ◌∷◌, sym, ◌≢◌,
}
use Prim.Native.String.{◌++◌}
use mathlib.Core.Path.{ap₂}
use text.Mathlib.TextLemmas.{append_assoc, cons-append, nil-append}
use text.Mathlib.TextEquality.{Char-path}

strip_prefix-append : (p rest : String) → strip_prefix p (p ++ rest) ≡ some rest
unfolding strip_prefix
strip_prefix-append String.[] rest = rw nil-append
strip_prefix-append (String.◌∷◌ c p) rest =
    rw cons-append (ground (arith, strip_prefix-append p rest))

strip_prefix-eq-some : (p s rest : String) → strip_prefix p s ≡ some rest → s ≡ p ++ rest
unfolding strip_prefix
strip_prefix-eq-some String.[] s rest e = rw nil-append (cc)
strip_prefix-eq-some (String.◌∷◌ c p) String.[] rest e = absurd (cc)
strip_prefix-eq-some (String.◌∷◌ c p) (String.◌∷◌ d s) rest e =
    let same_char : code d ≡ code c = ground arith in
    let same_rest : s ≡ p ++ rest = strip_prefix-eq-some p s rest (ground arith) in
    rw cons-append (ap₂ String.◌∷◌ (Char-path d c same_char) same_rest)

underscored-is_attempt_of :
    (prefix name suffix rest : String)
    → strip_prefix prefix name ≡ some suffix
    → strip_prefix "__" suffix ≡ some rest
    → is_attempt_of prefix name ≡ true
unfolding is_attempt_of starts_underscored
underscored-is_attempt_of prefix name suffix rest e f = ground arith

-- The name test asks for the prefix, two underscores, and anything.
pub is_attempt_of_iff :
    (prefix name : String)
    → (is_attempt_of prefix name ≡ true) ↔ ((rest : String) × (name ≡ prefix ++ ("__" ++ rest)))
unfolding is_attempt_of starts_underscored
is_attempt_of_iff prefix name = (
  λ h. elim (Option-cases (strip_prefix prefix name)) [
    | inl missing ↦ absurd (ground arith)
    | inr (suffix, found) ↦ elim (Option-cases (strip_prefix "__" suffix)) [
      | inl missing ↦ absurd (ground arith)
      | inr (rest, underscored) ↦ (
        rest,
        strip_prefix-eq-some prefix name suffix found
            ∙ ap (λ s. prefix ++ s) (strip_prefix-eq-some "__" suffix rest underscored),
      )
    ]
  ],
  λ h.
      underscored-is_attempt_of prefix name ("__" ++ h.0) (h.0)
        (rw (h.1) (strip_prefix-append prefix ("__" ++ h.0))) (strip_prefix-append "__" (h.0)),
)

-- An entry that shows a finished attempt with the prefix.
pub record IsFinished (prefix : String) (entry : DirEntry) : Type 0 where
  pub is_dir : entry.is_dir ≡ ok true
  pub name : String
  pub named : entry.name ≡ some name
  pub rest : String
  pub shape : name ≡ prefix ++ ("__" ++ rest)
  pub has_result : entry.has_result ≡ true

matches_attempt-IsFinished :
    (prefix : String) (entry : DirEntry) (name : Option String) (is_dir : Bool)
    → entry.name ≡ name
    → entry.is_dir ≡ ok is_dir
    → matches_attempt prefix name is_dir entry.has_result ≡ true
    → IsFinished prefix entry
unfolding matches_attempt
matches_attempt-IsFinished prefix entry name false n d h = absurd (ground arith)
matches_attempt-IsFinished prefix entry none true n d h = absurd (cc)
matches_attempt-IsFinished prefix entry (some name) true n d h =
    let (rest, shape) = (is_attempt_of_iff prefix name).0 (ground arith) in
    record {
      is_dir = d;
      name = name;
      named = n;
      rest = rest;
      shape = shape;
      has_result = ground arith;
    }

IsFinished-matches_attempt :
    (prefix : String) (entry : DirEntry) (is_dir : Bool)
    → IsFinished prefix entry
    → entry.is_dir ≡ ok is_dir
    → matches_attempt prefix entry.name is_dir entry.has_result ≡ true
unfolding matches_attempt
IsFinished-matches_attempt prefix entry is_dir f d =
    let named = (is_attempt_of_iff prefix f.name).1 (f.rest, f.shape) in
    let dir : is_dir ≡ true = cc (f.is_dir) in rw (f.named, dir, f.has_result, named)

find_completed_sound :
    (prefix : String) (entries : List (Result DirEntry IoError))
    → find_completed prefix entries ≡ ok true
    → (entry : DirEntry) × Memᴰ (ok entry) entries × IsFinished prefix entry
unfolding find_completed
find_completed_sound prefix [] h = absurd (cc)
find_completed_sound prefix (err error ∷ entries) h = absurd (cc)
find_completed_sound prefix (ok entry ∷ entries) h = elim (Result-cases entry.is_dir) [
  | inr (error, failed) ↦ absurd (ground arith)
  | inl (is_dir, known) ↦
      elim (Bool-cases (matches_attempt prefix entry.name is_dir entry.has_result)) [
        | inl matched ↦ (
          entry,
          Memᴰ.head refl,
          matches_attempt-IsFinished prefix entry entry.name is_dir refl known matched,
        )
        | inr other ↦
            let (found, listed, finished) = find_completed_sound prefix entries (ground arith) in
            (found, Memᴰ.tail listed, finished)
      ]
]

find_completed_complete :
    (prefix : String) (entries : List (Result DirEntry IoError)) (entry : DirEntry)
    → find_completed prefix entries ≡ ok false
    → Memᴰ (ok entry) entries
    → ¬ IsFinished prefix entry
unfolding find_completed
find_completed_complete prefix [] entry h m f = elim m [ ]
find_completed_complete prefix (err error ∷ entries) entry h m f = absurd (cc)
find_completed_complete prefix (ok first ∷ entries) entry h (Memᴰ.head e) f =
    let same_entry : entry ≡ first = cc in
    let finished : IsFinished prefix first = subst (λ x. IsFinished prefix x) same_entry f in
    ground (arith, finished.is_dir, IsFinished-matches_attempt prefix first true finished)
find_completed_complete prefix (ok first ∷ entries) entry h (Memᴰ.tail m) f =
    elim (Result-cases first.is_dir) [
      | inr (error, failed) ↦ absurd (ground arith)
      | inl (is_dir, known) ↦ find_completed_complete prefix entries entry (ground arith) m f
    ]

-- `completed_attempt` answers `true` only if the job's listing has a directory whose name is the
-- prefix, two underscores and more, with a `result.json` in it; it answers `false` only if the
-- listing has none.
pub completed_attempt_lem :
    (prefix : String) (entries : List (Result DirEntry IoError))
    → (completed_attempt prefix (ok entries) ≡ ok true
        → (entry : DirEntry) × Memᴰ (ok entry) entries × IsFinished prefix entry)
      × (completed_attempt prefix (ok entries) ≡ ok false
          → (entry : DirEntry) → Memᴰ (ok entry) entries
          → ¬ IsFinished prefix entry)
unfolding completed_attempt
completed_attempt_lem prefix entries =
    (find_completed_sound prefix entries, λ h entry. find_completed_complete prefix entries entry h)

-- The name of an attempt's directory is the attempt's prefix, two underscores and more.
trial_name_lem :
    {B : Type 0} (attempt : SweepAttempt B) (compact_id : String)
    → trial_name attempt.task compact_id
        (some (record { agent = attempt.agent.id; trial = attempt.trial }))
      ≡ trial_prefix attempt ++ ("__" ++ compact_id)
unfolding trial_name trial_prefix
trial_name_lem attempt compact_id =
    let task_name = short_name attempt.task.name in
    let agent = attempt.agent.id.text in
    let trial = decimal3 attempt.trial in
    let tail = "__" ++ compact_id in
    sym (
      append_assoc task_name ("__" ++ (agent ++ ("__" ++ trial))) tail
      ∙ ap (λ s. task_name ++ s)
          (append_assoc "__" (agent ++ ("__" ++ trial)) tail
            ∙ ap (λ s. "__" ++ s)
                (append_assoc agent ("__" ++ trial) tail
                  ∙ ap (λ s. agent ++ s) (append_assoc "__" trial tail))))

-- When the listing has a directory with a `result.json` and the name that `trial_name` gives to an
-- attempt of a sweep, `completed_attempt` never answers `false`, neither for this attempt nor for that
-- of the same agent and trial of any task whose name ends in the same component.
pub completed_attempt-trial_name :
    {B : Type 0} (attempt other : SweepAttempt B) (compact_id : String) (entry : DirEntry)
    (entries : List (Result DirEntry IoError))
    → short_name attempt.task.name ≡ short_name other.task.name
    → attempt.agent.id ≡ other.agent.id
    → attempt.trial ≡ other.trial
    → Memᴰ (ok entry) entries
    → entry.is_dir ≡ ok true
    → entry.name
      ≡ some (
          trial_name attempt.task compact_id
            (some (record { agent = attempt.agent.id; trial = attempt.trial })))
    → entry.has_result ≡ true
    → completed_attempt (trial_prefix other) (ok entries) ≢ ok false
unfolding trial_prefix
completed_attempt-trial_name attempt other compact_id entry entries same_task same_agent same_trial
      listed is_dir named has_result h =
    let same_prefix : trial_prefix attempt ≡ trial_prefix other =
      rw (trial_prefix, same_task) (rw same_agent (rw same_trial refl)) in
    (completed_attempt_lem (trial_prefix other) entries).1 h entry listed (record {
      is_dir = is_dir;
      name = _;
      named = named;
      rest = compact_id;
      shape = trial_name_lem attempt compact_id ∙ ap (λ p. p ++ ("__" ++ compact_id)) same_prefix;
      has_result = has_result;
    })
