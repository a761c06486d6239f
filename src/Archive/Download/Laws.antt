-- ===== src/Archive/Download/Laws.antt =====
-- That a download of crates/nanoeval-harbor/src/published.rs ends, and what it accepts.
use nanoeval.Prelude.{
  ℕ, Bool-cases, List, Option, Option-cases, Result, Result-cases, [], arith, err, inl, inr, leb,
  none, not, ok, some, suc, zero, ◌*◌, ◌++◌, ◌+◌, ◌-◌, ◌<◌, ◌^◌, ◌||◌, ◌∷◌, ◌≡◌, ◌≢◌, ◌≤◌, ◌⊎◌, All,
  All-append, length, length-append, refl, subst,
}
use nanoeval.Archive.Download.{
  download, Response, accept_response, check_size, check_status, download_attempts, is_transient,
  max_artifact_bytes, pause, send_with_retries, DownloadError,
}

module _ {B E : Type 0} (send : ℕ → Result (Response B E) E) where
  send_with_retries-ends :
      (fuel attempt : ℕ) (sleeps : List ℕ)
      → download_attempts ≤ attempt + fuel
      → attempt < download_attempts
      → send_with_retries send fuel attempt sleeps ≢ none
  unfolding send_with_retries
  send_with_retries-ends zero attempt sleeps h k = absurd (omega arith)
  send_with_retries-ends (suc fuel) attempt sleeps h k = elim (Result-cases (send attempt)) [
    | inr (error, bad) ↦ rw (send_with_retries, bad) (λ e. absurd (cc))
    | inl (response, answered) ↦
        elim (Bool-cases
          (not (is_transient response.status_code) || leb download_attempts (attempt + 1))) [
            | inl last ↦ rw (send_with_retries, answered) (rw last (λ e. absurd (cc)))
            | inr again ↦
                let more : attempt + 1 < download_attempts = ground (arith, again) in
                rw (send_with_retries, answered)
                  (rw again (
                    send_with_retries-ends fuel (attempt + 1)
                      (sleeps ++ pause response (attempt + 1) ∷ []) (omega arith) more))
          ]
  ]

doubling : (attempt : ℕ) → attempt < download_attempts → 250 * 2 ^ (attempt - 1) ≤ 16000
doubling zero h = omega arith
doubling (suc zero) h = omega arith
doubling (suc (suc zero)) h = omega arith
doubling (suc (suc (suc zero))) h = omega arith
doubling (suc (suc (suc (suc zero)))) h = omega arith
doubling (suc (suc (suc (suc (suc zero))))) h = omega arith
doubling (suc (suc (suc (suc (suc (suc zero)))))) h = omega arith
doubling (suc (suc (suc (suc (suc (suc (suc zero))))))) h = omega arith
doubling (suc (suc (suc (suc (suc (suc (suc (suc n)))))))) h = absurd (omega arith)

pause-le :
    {B E : Type 0} (response : Response B E) (attempt : ℕ)
    → attempt < download_attempts
    → response.retry_after ≡ none
    → pause response attempt ≤ 16000
unfolding pause
pause-le response attempt h e = rw (pause, e) (doubling attempt h)

-- What a download that is not in the cache returns is at most 64 MiB, and has been stored there.
pub accept_response-eq-ok :
    {B E : Type 0} (size : B → ℕ) (response : Response B E) (stored : Result (Unit {0}) E)
    (bytes : B)
    → accept_response size response stored ≡ ok bytes
    → (response.bytes ≡ ok bytes)
      × (size bytes ≤ max_artifact_bytes)
      × (stored ≡ ok tt)
      × (response.status_code < 400 ⊎ 600 ≤ response.status_code)
unfolding accept_response check_status check_size
accept_response-eq-ok size response stored bytes h = ground (arith, h)

module _ {B E : Type 0} (send : ℕ → Result (Response B E) E)
    (silent : (n : ℕ) (response : Response B E)
      → send n ≡ ok response
      → response.retry_after ≡ none) where
  retries-AreShort :
      (fuel attempt : ℕ) (sleeps : List ℕ) (last : Response B E) (out : List ℕ)
      → attempt < download_attempts
      → length sleeps ≡ attempt
      → All (λ ms. ms ≤ 16000) sleeps
      → send_with_retries send fuel attempt sleeps ≡ some (ok (last, out))
      → (length out < download_attempts) × All (λ ms. ms ≤ 16000) out
  unfolding send_with_retries
  retries-AreShort zero attempt sleeps last out k n a h = absurd (cc)
  retries-AreShort (suc fuel) attempt sleeps last out k n a h = elim (Result-cases (send attempt)) [
    | inr (error, bad) ↦ absurd (cc (rw (send_with_retries, bad) at h))
    | inl (response, answered) ↦
        let step = rw (send_with_retries, answered) at h in
        elim (Bool-cases
          (not (is_transient response.status_code) || leb download_attempts (attempt + 1))) [
            | inl done ↦
                let same_sleeps : sleeps ≡ out = cc (rw done at step) in
                subst (λ l. (length l < download_attempts) × All (λ ms. ms ≤ 16000) l) same_sleeps
                  (omega (arith, n), a)
            | inr again ↦
                let more : attempt + 1 < download_attempts = ground (arith, again) in
                let next = pause response (attempt + 1) in
                retries-AreShort fuel (attempt + 1) (sleeps ++ next ∷ []) last out more
                  (omega (arith, n, length-append sleeps (next ∷ [])))
                  (All-append (λ ms. ms ≤ 16000) sleeps (next ∷ []) a
                    (pause-le response (attempt + 1) more (silent attempt response answered), tt))
                  (rw again at step)
          ]
  ]

  -- When the server never says how long to wait, the retries sleep at most 7 times, and at most 16
  -- seconds each time.
  pub send_with_retries-AreShort :
      (fuel : ℕ) (last : Response B E) (sleeps : List ℕ)
      → send_with_retries send fuel 0 [] ≡ some (ok (last, sleeps))
      → (length sleeps ≤ 7) × All (λ ms. ms ≤ 16000) sleeps
  send_with_retries-AreShort fuel last sleeps h =
      let (fewer, short) = retries-AreShort fuel 0 [] last sleeps (omega arith) refl tt h in
      (omega arith, short)

-- What a download may give: an error, or the file that is in the cache, or a file of at most 64 MiB
-- that it has stored there.
abbrev pub IsDownloaded :
    {B E : Type 0}
    → (B → ℕ)
    → Option (Result B E)
    → Result (Unit {0}) E
    → Option (Result B (DownloadError E))
    → Type 0
IsDownloaded size cached stored none = ⊥
IsDownloaded size cached stored (some (err error)) = Unit
IsDownloaded size cached stored (some (ok bytes)) =
    (cached ≡ some (ok bytes))
    ⊎ ((cached ≡ none) × (size bytes ≤ max_artifact_bytes) × (stored ≡ ok tt))

accept_response-IsDownloaded :
    {B E : Type 0} (size : B → ℕ) (response : Response B E) (stored : Result (Unit {0}) E)
    → IsDownloaded size none stored (some (accept_response size response stored))
accept_response-IsDownloaded size response stored =
    elim (Result-cases (accept_response size response stored)) [
      | inr (error, bad) ↦ rw bad tt
      | inl (bytes, accepted) ↦
          let facts = accept_response-eq-ok size response stored bytes accepted in
          rw accepted (inr (refl, facts.1, facts.2))
    ]

-- A download ends within the 8 requests it allows itself, whatever the server answers; and what it
-- returns is the file that is in the cache, or at most 64 MiB that it has stored there.
pub download-IsDownloaded :
    {B E : Type 0} (size : B → ℕ) (cached : Option (Result B E))
    (send : ℕ → Result (Response B E) E) (stored : Result (Unit {0}) E)
    → IsDownloaded size cached stored (download size cached send stored)
unfolding download
download-IsDownloaded size (some (ok found)) send stored = inl refl
download-IsDownloaded size (some (err error)) send stored = tt
download-IsDownloaded size none send stored =
    elim (Option-cases (send_with_retries send download_attempts 0 [])) [
      | inl out_of_fuel ↦ absurd (
          send_with_retries-ends send download_attempts 0 [] (omega arith) (omega arith)
            out_of_fuel)
      | inr (err error, failed) ↦ rw (download, failed) tt
      | inr (ok (response, sleeps), answered) ↦
          rw (download, answered) (accept_response-IsDownloaded size response stored)
    ]
