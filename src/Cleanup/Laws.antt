-- ===== src/Cleanup/Laws.antt =====
-- What the cleanup of bin/nanoeval/src/cleanup.rs removes.
use nanoeval.Prelude.{
  Bool, List, Option, Result, [], any, err, false, none, ok, some, true, ◌||◌, ◌∷◌, ◌≡◌, Bool-cases,
  Option-cases, Result-cases, ap, arith, bind-eq-ok, inl, inr, subst, sym, ◌∙◌, if◌then◌else◌, not,
  refl, str_eq, ◌&&◌,
}
use nanoeval.Prelude.Paths.{FilePath, path_eq, join, path_eq_iff}
use nanoeval.Cleanup.{
  Metadata, WalkEntry, disposable_vm_disks, is_trial_result, Cleaning, Files, clean_disk,
  clean_disks, clean_entries, clean_entry, clean_trial, cleanup_completed_vm_disks, remove_disk,
  without, ResultFields, is_completed_trial_result,
}

-- A disposable disk of this trial.
abbrev pub is_disk_of : FilePath → FilePath → Bool
is_disk_of trial path = any (λ relative. path_eq (join trial relative) path) disposable_vm_disks

-- A file `result.json` that has the name of a task, the name of a trial and the time of its end.
abbrev has_results : {E : Type 0} → Result (Option ResultFields) E → Bool
has_results (err error) = false
has_results (ok none) = false
has_results (ok (some fields)) = fields.task_name && (fields.trial_name && fields.finished_at)

abbrev pub is_completed : {E : Type 0} → WalkEntry E → Bool
is_completed entry =
    entry.is_file && (str_eq entry.file_name "result.json" && has_results entry.contents)

abbrev is_disk_in : Option FilePath → FilePath → Bool
is_disk_in none path = false
is_disk_in (some trial) path = is_disk_of trial path

-- A disposable disk of a completed trial of the walk.
abbrev pub is_disposable : {E : Type 0} → List (Result (WalkEntry E) E) → FilePath → Bool
is_disposable [] path = false
is_disposable (err error ∷ entries) path = false
is_disposable (ok entry ∷ entries) path =
    (is_completed entry && is_disk_in entry.parent path) || is_disposable entries path

abbrev is_regular : Option Metadata → Bool
is_regular none = false
is_regular (some metadata) = metadata.is_file

-- Outside a dry run, these disks are removed if they are files, and any other path keeps its file.
abbrev pub IsCleaned : Bool → Bool → Option Metadata → Option Metadata → Type 0
IsCleaned dry_run disposable before after =
    after ≡ (if not dry_run && (disposable && is_regular before) then none else before)

is_trial_result-is_completed :
    {E : Type 0} (entry : WalkEntry E) (b : Bool)
    → is_trial_result entry ≡ ok b
    → is_completed entry ≡ b
unfolding is_trial_result is_completed_trial_result
is_trial_result-is_completed entry b h = ground arith

IsCleaned-none : (dry_run : Bool) (x y : Option Metadata) → y ≡ x → IsCleaned dry_run false x y
IsCleaned-none dry_run x y e = ground (arith, e)

IsCleaned-trans :
    (dry_run b c : Bool) (x y z : Option Metadata)
    → IsCleaned dry_run b x y
    → IsCleaned dry_run c y z
    → IsCleaned dry_run (b || c) x z
IsCleaned-trans dry_run b c x y z e f = f ∙ rw e (twice dry_run b c x)
  where
    twice :
        (d b c : Bool) (x : Option Metadata)
        → (if not d && (c && is_regular (if not d && (b && is_regular x) then none else x))
            then none
            else (if not d && (b && is_regular x) then none else x))
          ≡ (if not d && ((b || c) && is_regular x) then none else x)
    twice true b c x = refl
    twice false false c x = refl
    twice false true c none = ground arith
    twice false true c (some metadata) = ground arith

module _ {E : Type 0} (dry_run : Bool) (remove : FilePath → Result (Unit {0}) E)
    (path : FilePath) where
  remove_disk-IsCleaned :
      (disk : FilePath) (files out : Files)
      → is_regular (files disk) ≡ true
      → remove_disk dry_run remove disk files ≡ ok out
      → IsCleaned dry_run (path_eq disk path) (files path) (out path)
  unfolding remove_disk
  remove_disk-IsCleaned disk files out regular h = elim (Bool-cases dry_run) [
    | inl dry ↦
        let same_files : files ≡ out = cc (rw (remove_disk, dry) at h) in
        rw dry (ap (λ (f : Files). f path) (sym same_files))
    | inr wet ↦ elim (Result-cases (remove disk)) [
      | inr (error, bad) ↦ absurd (cc (rw bad at rw (remove_disk, wet) at h))
      | inl (u, good) ↦
          let cut : without disk files ≡ out = cc (rw good at rw (remove_disk, wet) at h) in
          let here : without disk files path ≡ out path = ap (λ (f : Files). f path) cut in
          elim (Bool-cases (path_eq disk path)) [
            | inl hit ↦
                let there : is_regular (files path) ≡ true =
                  ap (λ p. is_regular (files p)) (sym ((path_eq_iff disk path).0 hit)) ∙ regular in
                rw (wet, hit) (rw there (sym (rw hit at here)))
            | inr miss ↦ rw (wet, miss) (sym (rw miss at here))
          ]
    ]
  ]

  clean_disk-IsCleaned :
      (disk : FilePath) (state next : Cleaning) (found : Bool)
      → clean_disk dry_run remove disk state ≡ ok (next, found)
      → IsCleaned dry_run (path_eq disk path) (state.disks path) (next.disks path)
  unfolding clean_disk
  clean_disk-IsCleaned disk state next found h = elim (Option-cases (state.disks disk)) [
    | inl missing ↦
        let kept : state ≡ next = cc (rw (clean_disk, missing) at h) in
        unchanged disk state next (ap is_regular missing) kept
    | inr (metadata, there) ↦ elim (Bool-cases metadata.is_file) [
      | inr other_kind ↦
          let kept : state ≡ next = cc (rw other_kind at rw (clean_disk, there) at h) in
          unchanged disk state next (ap is_regular there ∙ other_kind) kept
      | inl regular ↦
          let step = rw regular at rw (clean_disk, there) at h in
          elim (Result-cases (remove_disk dry_run remove disk state.disks)) [
            | inr (error, bad) ↦ absurd (cc (rw bad at step))
            | inl (disks, good) ↦
                let after : disks ≡ next.disks = cc (rw good at step) in
                subst
                  (λ (f : Files). IsCleaned dry_run (path_eq disk path) (state.disks path) (f path))
                  after
                  (remove_disk-IsCleaned disk state.disks disks (ap is_regular there ∙ regular)
                    good)
          ]
    ]
  ]
    where
      unchanged :
          (disk : FilePath) (state next : Cleaning)
          → is_regular (state.disks disk) ≡ false
          → state ≡ next
          → IsCleaned dry_run (path_eq disk path) (state.disks path) (next.disks path)
      unchanged disk state next absent kept =
          let same = ap (λ (s : Cleaning). s.disks path) (sym kept) in
          elim (Bool-cases (path_eq disk path)) [
            | inr miss ↦ rw miss (IsCleaned-none dry_run (state.disks path) (next.disks path) same)
            | inl hit ↦
                let gone : is_regular (state.disks path) ≡ false =
                  ap (λ p. is_regular (state.disks p)) (sym ((path_eq_iff disk path).0 hit))
                  ∙ absent in
                rw (hit, gone) (IsCleaned-none dry_run (state.disks path) (next.disks path) same)
          ]

  clean_disks-IsCleaned :
      (trial : FilePath) (disks : List FilePath) (state : Cleaning) (removed : Bool)
      (next : Cleaning) (found : Bool)
      → clean_disks dry_run remove trial disks (state, removed) ≡ ok (next, found)
      → IsCleaned dry_run
          (any (λ relative. path_eq (join trial relative) path) disks)
          (state.disks path)
          (next.disks path)
  unfolding clean_disks
  clean_disks-IsCleaned trial [] state removed next found h =
      let kept : state ≡ next = cc in
      IsCleaned-none dry_run (state.disks path) (next.disks path)
        (ap (λ (s : Cleaning). s.disks path) (sym kept))
  clean_disks-IsCleaned trial (relative ∷ later) state removed next found h =
      let ((middle, here), first, rest) =
        bind-eq-ok {m = clean_disk dry_run remove (join trial relative) state}
          {f = λ p. clean_disks dry_run remove trial later (p.0, removed || p.1)} h in
      IsCleaned-trans dry_run (path_eq (join trial relative) path)
        (any (λ other_disk. path_eq (join trial other_disk) path) later) (state.disks path)
        (middle.disks path) (next.disks path)
        (clean_disk-IsCleaned (join trial relative) state middle here first)
        (clean_disks-IsCleaned trial later middle (removed || here) next found rest)

  clean_trial-IsCleaned :
      (trial : FilePath) (state next : Cleaning)
      → clean_trial dry_run remove trial state ≡ ok next
      → IsCleaned dry_run (is_disk_of trial path) (state.disks path) (next.disks path)
  unfolding clean_trial
  clean_trial-IsCleaned trial state next h =
      elim (Result-cases (clean_disks dry_run remove trial disposable_vm_disks (state, false))) [
        | inr (error, bad) ↦ absurd (cc (rw (clean_trial, bad) at h))
        | inl ((middle, found), good) ↦
            let after : middle.disks ≡ next.disks = cc (rw (clean_trial, good) at h) in
            subst
              (λ (f : Files). IsCleaned dry_run (is_disk_of trial path) (state.disks path) (f path))
              after (clean_disks-IsCleaned trial disposable_vm_disks state false middle found good)
      ]

  clean_entries-IsCleaned :
      (entries : List (Result (WalkEntry E) E)) (state out : Cleaning)
      → clean_entries dry_run remove entries state ≡ ok out
      → IsCleaned dry_run (is_disposable entries path) (state.disks path) (out.disks path)
  unfolding clean_entries clean_entry
  clean_entries-IsCleaned [] state out h =
      let kept : state ≡ out = cc in
      IsCleaned-none dry_run (state.disks path) (out.disks path)
        (ap (λ (s : Cleaning). s.disks path) (sym kept))
  clean_entries-IsCleaned (err error ∷ entries) state out h = absurd (cc)
  clean_entries-IsCleaned (ok entry ∷ entries) state out h =
      elim (Result-cases (is_trial_result entry)) [
        | inr (error, bad) ↦ absurd (cc (rw (clean_entries, bad) at h))
        | inl (false, skipped) ↦
            rw (is_trial_result-is_completed entry false skipped)
              (clean_entries-IsCleaned entries state out (rw (clean_entries, skipped) at h))
        | inl (true, trial_found) ↦
            let step = rw (clean_entries, trial_found) at h in
            elim (Option-cases entry.parent) [
              | inl orphan ↦ absurd (cc (rw (clean_entry, orphan) at step))
              | inr (trial, inside) ↦ elim (Result-cases (clean_trial dry_run remove trial state)) [
                | inr (error, bad) ↦ absurd (cc (rw bad at rw (clean_entry, inside) at step))
                | inl (next, good) ↦ rw (is_trial_result-is_completed entry true trial_found) (
                    rw inside (
                      IsCleaned-trans dry_run (is_disk_of trial path) (is_disposable entries path)
                        (state.disks path) (next.disks path) (out.disks path)
                        (clean_trial-IsCleaned trial state next good)
                        (clean_entries-IsCleaned entries next out
                          (rw good at rw (clean_entry, inside) at step))))
              ]
            ]
      ]

  -- After a cleanup that succeeds, outside a dry run, the disposable disks of completed trials of the
  -- walk are gone if they were regular files; every other path keeps its file, and in a dry run every
  -- path does. A trial is completed if the walk has a file `result.json` in its directory whose contents
  -- have a task name, a trial name and the time of the end.
  pub cleanup_completed_vm_disks-IsCleaned :
      (entries : List (Result (WalkEntry E) E)) (disks : Files) (out : Cleaning)
      → cleanup_completed_vm_disks dry_run remove entries disks ≡ ok out
      → IsCleaned dry_run (is_disposable entries path) (disks path) (out.disks path)
  unfolding cleanup_completed_vm_disks
  cleanup_completed_vm_disks-IsCleaned entries disks out h = clean_entries-IsCleaned entries _ out h
