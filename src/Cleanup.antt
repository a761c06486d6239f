-- ===== src/Cleanup.antt =====
-- The cleanup command, bin/nanoeval/src/cleanup.rs: the disposable disks of completed trials. The walk
-- over the directory is a list of entries, and the file system says for each path whether there is a
-- file; `E` is the error of the operating system.
pub mod Laws
mod Tests
use nanoeval.Prelude.{
  ◌>>=◌, ℕ, Bool, List, Option, Result, String, [], err, false, if◌then◌else◌, leb, map_ok, min,
  none, not, ok, ok_or, some, str_eq, true, ◌%◌, ◌&&◌, ◌*◌, ◌+◌, ◌/◌, ◌||◌, ◌∷◌,
}
use Prim.Native.String.{◌++◌}
use nanoeval.Prelude.Paths.{FilePath, path_eq, join}
use nanoeval.Sweep.Prefix.{decimal}

-- `DISPOSABLE_VM_DISKS`
abbrev pub disposable_vm_disks : List FilePath
disposable_vm_disks =
    ("rootfs.ext4" ∷ []) ∷ ("verifier-rootfs.ext4" ∷ []) ∷ ("verifier" ∷ "cache.ext4" ∷ []) ∷ []

-- What `symlink_metadata` says of a path that is there.
pub record Metadata : Type 0 where
  pub is_file : Bool
  pub blocks : ℕ

abbrev pub Files : Type 0
Files = FilePath → Option Metadata

-- What a result that is JSON has as texts.
pub record ResultFields : Type 0 where
  pub task_name : Bool
  pub trial_name : Bool
  pub finished_at : Bool

-- An entry of the walk: its parent directory, and what its contents read as.
pub record WalkEntry (E : Type 0) : Type 0 where
  pub is_file : Bool
  pub file_name : String
  pub parent : Option FilePath
  pub contents : Result (Option ResultFields) E

pub data CleanupError (E : Type 0) : Type 0 where
  other : E → CleanupError E
  no_parent : CleanupError E

abbrev pub lift : {A E : Type 0} → Result A E → Result A (CleanupError E)
lift (ok a) = ok a
lift (err error) = err (other error)

pub record CleanupReport : Type 0 where
  pub trials : ℕ
  pub files : ℕ
  pub allocated_bytes : ℕ

-- `u64::MAX`
abbrev pub u64_max : ℕ
u64_max = 18446744073709551615

-- `allocated_bytes`
abbrev pub allocated_bytes : Metadata → ℕ
allocated_bytes metadata = min (metadata.blocks * 512) u64_max

-- `is_completed_trial_result`
unfoldable pub is_completed_trial_result : {E : Type 0} → WalkEntry E → Result Bool E
is_completed_trial_result entry =
    map_ok
      (λ read. elim read [
        | none ↦ false
        | some fields ↦ fields.task_name && fields.trial_name && fields.finished_at
      ])
      entry.contents

-- whether an entry is the result of a completed trial
unfoldable pub is_trial_result : {E : Type 0} → WalkEntry E → Result Bool E
unfolding is_completed_trial_result
is_trial_result entry =
    if entry.is_file && str_eq entry.file_name "result.json"
    then is_completed_trial_result entry
    else ok false

-- the `remove_file` of a path
abbrev pub without : FilePath → Files → Files
without path files other_path = if path_eq path other_path then none else files other_path

pub record Cleaning : Type 0 where
  pub disks : Files
  pub report : CleanupReport

-- one more disk in the report
abbrev pub counted : Metadata → CleanupReport → CleanupReport
counted metadata report = record report {
  files = report.files + 1;
  allocated_bytes = min (report.allocated_bytes + allocated_bytes metadata) u64_max;
}

module _ {E : Type 0} (dry_run : Bool) (remove : FilePath → Result (Unit {0}) E) where
  unfoldable pub remove_disk : FilePath → Files → Result Files (CleanupError E)
  remove_disk disk files =
      if dry_run then ok files else map_ok (λ u. without disk files) (lift (remove disk))

  -- One disk: the state, and whether it was there.
  unfoldable pub clean_disk : FilePath → Cleaning → Result (Cleaning × Bool) (CleanupError E)
  unfolding remove_disk
  clean_disk disk state = elim (state.disks disk) [
    | none ↦ ok (state, false)
    | some metadata ↦
        if not metadata.is_file
        then ok (state, false)
        else map_ok
            (λ disks. (record { disks = disks; report = counted metadata state.report }, true))
            (remove_disk disk state.disks)
  ]

  -- the loop over the disks of a trial
  unfoldable pub clean_disks :
      FilePath → List FilePath → Cleaning × Bool → Result (Cleaning × Bool) (CleanupError E)
  unfolding clean_disk
  clean_disks trial [] (state, removed) = ok (state, removed)
  clean_disks trial (relative ∷ later) (state, removed) = do
    (next, found) ← clean_disk (join trial relative) state
    clean_disks trial later (next, removed || found)

  unfoldable pub clean_trial : FilePath → Cleaning → Result Cleaning (CleanupError E)
  unfolding clean_disks
  clean_trial trial state = do
    (next, removed) ← clean_disks trial disposable_vm_disks (state, false)
    ok (record next {
      report = record next.report { trials = next.report.trials + (if removed then 1 else 0) };
    })

  unfoldable pub clean_entry : WalkEntry E → Bool → Cleaning → Result Cleaning (CleanupError E)
  unfolding clean_trial
  clean_entry entry false state = ok state
  clean_entry entry true state = do trial ← ok_or entry.parent no_parent; clean_trial trial state

  -- the loop over the entries
  unfoldable pub clean_entries :
      List (Result (WalkEntry E) E) → Cleaning → Result Cleaning (CleanupError E)
  unfolding is_trial_result clean_entry
  clean_entries [] state = ok state
  clean_entries (walked ∷ entries) state = do
    entry ← lift walked
    is_result ← lift (is_trial_result entry)
    next ← clean_entry entry is_result state
    clean_entries entries next

  -- `cleanup_completed_vm_disks`
  unfoldable pub cleanup_completed_vm_disks :
      List (Result (WalkEntry E) E) → Files → Result Cleaning (CleanupError E)
  unfolding clean_entries
  cleanup_completed_vm_disks entries disks =
      clean_entries entries
        (record { disks = disks; report = record { trials = 0; files = 0; allocated_bytes = 0 } })

-- `format_decimal_bytes`
unfoldable pub format_decimal_bytes : ℕ → ℕ → String → String
unfolding decimal
format_decimal_bytes bytes unit suffix =
    (((decimal (bytes / unit) ++ ".") ++ decimal ((bytes % unit) * 10 / unit)) ++ " ") ++ suffix

-- `format_bytes`
unfoldable pub format_bytes : ℕ → String
unfolding format_decimal_bytes
format_bytes bytes =
    if leb 1073741824 bytes
    then format_decimal_bytes bytes 1073741824 "GiB"
    else format_decimal_bytes bytes 1048576 "MiB"
