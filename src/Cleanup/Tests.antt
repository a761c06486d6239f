-- ===== src/Cleanup/Tests.antt =====
-- A completed trial with one disk, and one that is not completed.
use nanoeval.Prelude.{
  Bool, List, Result, String, [], false, if◌then◌else◌, none, ok, refl, some, true, ◌||◌, ◌∷◌, ◌≡◌,
}
use nanoeval.Prelude.Paths.{FilePath, path_eq}
use nanoeval.Cleanup.{
  cleanup_completed_vm_disks, Cleaning, Files, WalkEntry, clean_disk, clean_disks, clean_entries,
  clean_entry, clean_trial, format_bytes, format_decimal_bytes, is_completed_trial_result,
  is_trial_result, remove_disk, without,
}
use nanoeval.Cleanup.Laws.{cleanup_completed_vm_disks-IsCleaned, IsCleaned, is_disposable}

abbrev result_in : String → Bool → Result (WalkEntry String) String
result_in trial is_finished = ok (record {
  is_file = true;
  file_name = "result.json";
  parent = some ("job" ∷ trial ∷ []);
  contents = ok (some (record { task_name = true; trial_name = true; finished_at = is_finished }));
})

abbrev walked_entries : List (Result (WalkEntry String) String)
walked_entries = result_in "done" true ∷ result_in "open" false ∷ []

abbrev done_disk : FilePath
done_disk = "job" ∷ "done" ∷ "rootfs.ext4" ∷ []

abbrev open_disk : FilePath
open_disk = "job" ∷ "open" ∷ "rootfs.ext4" ∷ []

abbrev two_disks : Files
two_disks path =
    if path_eq path done_disk || path_eq path open_disk
    then some (record { is_file = true; blocks = 4 })
    else none

abbrev removable : FilePath → Result (Unit {0}) String
removable path = ok tt

abbrev cleaned : Cleaning
cleaned = record {
  disks = without done_disk two_disks;
  report = record { trials = 1; files = 1; allocated_bytes = 2048 };
}

disks_cleaned : cleanup_completed_vm_disks false removable walked_entries two_disks ≡ ok cleaned
unfolding cleanup_completed_vm_disks clean_entries is_trial_result is_completed_trial_result
    clean_entry clean_trial clean_disks clean_disk remove_disk path_eq
disks_cleaned = refl

cleanup_completed_vm_disks-IsCleaned_example :
    IsCleaned false
      (is_disposable walked_entries done_disk)
      (two_disks done_disk)
      (cleaned.disks done_disk)
cleanup_completed_vm_disks-IsCleaned_example =
    cleanup_completed_vm_disks-IsCleaned false removable done_disk walked_entries two_disks cleaned
      disks_cleaned

sizes_printed : (format_bytes 1610612736 ≡ "1.5 GiB") × (format_bytes 2048 ≡ "0.0 MiB")
unfolding format_bytes format_decimal_bytes
sizes_printed = (refl, refl)
