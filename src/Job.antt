-- ===== src/Job.antt =====
-- crates/nanoeval/src/job.rs: the directory of one evaluation job. What a directory listing shows
-- is a value here, with the failure of each system call in it; the JSON of a run manifest is
-- written and read by another package.
pub mod Binding
pub mod Resume
pub mod Completed
pub mod Sample
mod Tests
use nanoeval.Errors.{is_some_and, IoError}
use nanoeval.Prelude.{
  ℕ, Bool, List, Option, Result, String, [], code, err, false, if◌then◌else◌, none, ok, some, true,
  ◌&&◌, ◌+◌, ◌==◌, ◌>>=◌, ◌∷◌,
}

-- One entry of `read_dir`: its name if it is UTF-8, what `file_type` says of being a directory,
-- and whether it holds a file `result.json`.
pub record DirEntry : Type 0 where
  pub name : Option String
  pub is_dir : Result Bool IoError
  pub has_result : Bool

abbrev pub Listing : Type 0
Listing = Result (List (Result DirEntry IoError)) IoError

-- `str::strip_prefix`, with the prefix first
unfoldable pub strip_prefix : String → String → Option String
strip_prefix String.[] s = some s
strip_prefix (String.◌∷◌ c p) String.[] = none
strip_prefix (String.◌∷◌ c p) (String.◌∷◌ d s) =
    let rest = strip_prefix p s in if code c == code d then rest else none

-- `suffix.starts_with("__")`
unfoldable pub starts_underscored : String → Bool
unfolding strip_prefix
starts_underscored suffix = elim (strip_prefix "__" suffix) [ none ↦ false | some rest ↦ true ]

-- the name test of `completed_attempt`
unfoldable pub is_attempt_of : String → String → Bool
unfolding strip_prefix starts_underscored
is_attempt_of trial_prefix name = is_some_and (strip_prefix trial_prefix name) starts_underscored

-- the body of the loop: `none` for `continue`
unfoldable pub matches_attempt : String → Option String → Bool → Bool → Bool
unfolding is_attempt_of
matches_attempt trial_prefix name false has_result = false
matches_attempt trial_prefix none true has_result = false
matches_attempt trial_prefix (some name) true has_result =
    is_attempt_of trial_prefix name && has_result

-- `completed_attempt`, over the entries
unfoldable pub find_completed : String → List (Result DirEntry IoError) → Result Bool IoError
unfolding matches_attempt
find_completed trial_prefix [] = ok false
find_completed trial_prefix (err error ∷ entries) = err error
find_completed trial_prefix (ok entry ∷ entries) =
    let rest = find_completed trial_prefix entries in
    do
      is_dir ← entry.is_dir
      if matches_attempt trial_prefix entry.name is_dir entry.has_result then ok true else rest

unfoldable pub completed_attempt : String → Listing → Result Bool IoError
unfolding find_completed
completed_attempt trial_prefix listing = do entries ← listing; find_completed trial_prefix entries

-- `completed_trial_count`
unfoldable pub count_completed : ℕ → List (Result DirEntry IoError) → Result ℕ IoError
count_completed completed [] = ok completed
count_completed completed (err error ∷ entries) = err error
count_completed completed (ok entry ∷ entries) = do
  is_dir ← entry.is_dir
  count_completed (if is_dir && entry.has_result then completed + 1 else completed) entries

unfoldable pub completed_trial_count : Listing → Result ℕ IoError
unfolding count_completed
completed_trial_count listing = do entries ← listing; count_completed 0 entries
