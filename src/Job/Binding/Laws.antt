-- ===== src/Job/Binding/Laws.antt =====
-- What `bind_run` of crates/nanoeval/src/job.rs leaves in `run.json`, on every path.
use nanoeval.Sweep.Manifest.{manifest_eq_congr, manifest_eq_refl}
use nanoeval.Errors.{IoError, run_conflict}
use nanoeval.Sweep.{RunManifest, manifest_eq}
use nanoeval.Prelude.Paths.{FilePath}
use nanoeval.Job.Binding.{
  verify_run, ManifestJson, Disk, Holds, IsRun, bind_run, bind_encoded, create_run, persist,
}
use nanoeval.Prelude.{
  Option, Result-cases, arith, inl, inr, ok, refl, some, ◌≡◌, Result, String, err, if◌then◌else◌,
  none, ◌⊎◌,
}

module _ (N : Type 0) (j : ManifestJson) where
  open j use {Bytes, newline, encode, decode, round_trip}

  verify_run-eq-ok :
      (path : FilePath) (disk : Disk Bytes) (run : RunManifest) (text : Bytes)
      → verify_run N j path disk run text ≡ ok tt
      → Holds N j run (some text)
  unfolding verify_run
  verify_run-eq-ok path disk run text h = elim (Result-cases (decode text)) [
    | inl (retained, decoded) ↦ record {
      text = text;
      retained = retained;
      present = refl;
      decoded = decoded;
      same_run = ground arith;
    }
    | inr (error, failed) ↦ absurd (ground arith)
  ]

  module _ (path : FilePath) (disk : Disk Bytes) (run : RunManifest) where
    bind_encoded_keeps :
        (file : Option Bytes) (text : Bytes) (encoded : Result Bytes String)
        → (file ≡ some text)
          ⊎ ((file ≡ none) × (disk.raced ≡ some text) × ((bytes : Bytes) × (encoded ≡ ok bytes)))
        → (bind_encoded N j path disk run file encoded).0 ≡ some text
    unfolding bind_encoded create_run persist
    bind_encoded_keeps (some kept) text (ok encoded) h = ground arith
    bind_encoded_keeps none text (ok encoded) h = ground arith
    bind_encoded_keeps file text (err error) h = ground arith

    -- A `run.json` that is there is not overwritten, whatever fails; nor is one that another process
    -- puts there after the test for the file, if the manifest can be encoded.
    pub bind_run_keeps :
        (file : Option Bytes) (text : Bytes)
        → (file ≡ some text)
          ⊎ ((file ≡ none)
              × (disk.raced ≡ some text)
              × ((encoded : Bytes) × (encode run ≡ ok encoded)))
        → (bind_run N j path disk run file).0 ≡ some text
    unfolding bind_run
    bind_run_keeps file text h = bind_encoded_keeps file text (encode run) h

    persist-Holds :
        (encoded : Bytes)
        → IsRun run
        → encode run ≡ ok encoded
        → (raced : Option Bytes) → (persist N j path disk run encoded raced).1 ≡ ok tt
        → Holds N j run (persist N j path disk run encoded raced).0
    unfolding persist
    persist-Holds encoded valid e none h = record {
      text = newline encoded;
      retained = run;
      present = refl;
      decoded = round_trip run encoded valid.0 valid.1 e;
      same_run = manifest_eq_refl run;
    }
    persist-Holds encoded valid e (some other) h = verify_run-eq-ok path disk run other h

    create_run-Holds :
        (encoded : Bytes)
        → IsRun run
        → encode run ≡ ok encoded
        → (written : Result (Unit {0}) IoError)
        → (create_run N j path disk run encoded written).1 ≡ ok tt
        → Holds N j run (create_run N j path disk run encoded written).0
    unfolding create_run
    create_run-Holds encoded valid e (ok done) h = persist-Holds encoded valid e disk.raced h
    create_run-Holds encoded valid e (err error) h = absurd (cc)

    bind_encoded-Holds :
        (file : Option Bytes) (encoded : Result Bytes String)
        → IsRun run
        → encode run ≡ encoded
        → (bind_encoded N j path disk run file encoded).1 ≡ ok tt
        → Holds N j run (bind_encoded N j path disk run file encoded).0
    unfolding bind_encoded
    bind_encoded-Holds none (ok encoded) valid e h = create_run-Holds encoded valid e disk.written h
    bind_encoded-Holds (some text) (ok encoded) valid e h = verify_run-eq-ok path disk run text h
    bind_encoded-Holds file (err error) valid e h = absurd (cc)

    -- When `bind_run` succeeds, `run.json` holds a manifest that is the same run.
    pub bind_run-Holds :
        (file : Option Bytes)
        → IsRun run
        → (bind_run N j path disk run file).1 ≡ ok tt
        → Holds N j run (bind_run N j path disk run file).0
    unfolding bind_run
    bind_run-Holds file valid h = bind_encoded-Holds file (encode run) valid refl h

  -- Once a job is bound to a run, binding it again succeeds exactly for the same run, and for any
  -- other run it reports a conflict; the file stays as it is.
  pub rebind :
      (path : FilePath) (disk : Disk Bytes) (run other : RunManifest) (file : Option Bytes)
      (encoded : Bytes)
      → Holds N j run file
      → disk.readable ≡ ok tt
      → encode other ≡ ok encoded
      → bind_run N j path disk other file
        ≡ (file, (if manifest_eq run other then ok tt else err (run_conflict path)))
  unfolding bind_run verify_run
  rebind path disk run other file encoded h readable e =
      ground (arith, h.present, h.decoded, manifest_eq_congr h.retained run other h.same_run)
