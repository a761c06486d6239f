-- ===== src/Archive/Download.antt =====
-- `PublishedResults::download` of crates/nanoeval-harbor/src/published.rs: the retries of a request,
-- and what is accepted. `B` is the type of a body; the server's answer to each request and the
-- outcome of each system call are values. Durations are in milliseconds.
pub mod Laws
use nanoeval.Prelude.{
  ◌>>◌, ℕ, Bool, List, Option, Result, [], err, false, if◌then◌else◌, leb, ltb, none, not, ok, some,
  suc, true, zero, ◌&&◌, ◌*◌, ◌++◌, ◌+◌, ◌-◌, ◌==◌, ◌>>=◌, ◌^◌, ◌||◌, ◌∷◌,
}

-- `DOWNLOAD_ATTEMPTS`
abbrev pub download_attempts : ℕ
download_attempts = 8

-- `MAX_ARTIFACT_BYTES`
abbrev pub max_artifact_bytes : ℕ
max_artifact_bytes = 67108864

-- An answer of the server; `retry_after` is its header, in seconds, where it is a number.
pub record Response (B E : Type 0) : Type 0 where
  pub status_code : ℕ
  pub retry_after : Option ℕ
  pub content_length : Option ℕ
  pub bytes : Result B E

pub data DownloadError (E : Type 0) : Type 0 where
  other : E → DownloadError E
  missing_artifact : DownloadError E
  bad_status : ℕ → DownloadError E
  artifact_too_large : DownloadError E

abbrev pub lift : {A E : Type 0} → Result A E → Result A (DownloadError E)
lift (ok a) = ok a
lift (err error) = err (other error)

-- whether an answer is asked for again: too many requests, or an error of the server
unfoldable pub is_transient : ℕ → Bool
is_transient status_code = status_code == 429 || (leb 500 status_code && ltb status_code 600)

-- the sleep before a retry: `retry_after.unwrap_or(exponential)`
unfoldable pub pause : {B E : Type 0} → Response B E → ℕ → ℕ
pause response attempt = elim response.retry_after [
  | some seconds ↦ seconds * 1000
  | none ↦ 250 * 2 ^ (attempt - 1)
]

module _ {B E : Type 0} (send : ℕ → Result (Response B E) E) where
  -- The loop, from the number of requests that were answered; with the answer it gives the sleeps.
  -- `none` means that the fuel ran out.
  unfoldable pub send_with_retries :
      ℕ → ℕ → List ℕ → Option (Result (Response B E × List ℕ) (DownloadError E))
  unfolding is_transient pause
  send_with_retries zero attempt sleeps = none
  send_with_retries (suc fuel) attempt sleeps = elim (send attempt) [
    | err error ↦ some (err (other error))
    | ok response ↦
        elim (not (is_transient response.status_code) || leb download_attempts (attempt + 1)) [
          | true ↦ some (ok (response, sleeps))
          | false ↦
              send_with_retries fuel (attempt + 1) (sleeps ++ pause response (attempt + 1) ∷ [])
        ]
  ]

module _ {B E : Type 0} (size : B → ℕ) where
  unfoldable pub check_status : Response B E → Result (Unit {0}) (DownloadError E)
  check_status response =
      if response.status_code == 404
      then err missing_artifact
      else if leb 400 response.status_code && ltb response.status_code 600
      then err (bad_status response.status_code)
      else ok tt

  unfoldable pub check_size : Option ℕ → Result (Unit {0}) (DownloadError E)
  check_size none = ok tt
  check_size (some bytes) =
      if leb (2 ^ 64) bytes || ltb max_artifact_bytes bytes then err artifact_too_large else ok tt

  -- What is made of the last answer, and of the attempt to put the file into the cache.
  unfoldable pub accept_response : Response B E → Result (Unit {0}) E → Result B (DownloadError E)
  unfolding check_status check_size
  accept_response response stored = do
    check_status response
    check_size response.content_length
    bytes ← lift response.bytes
    check_size (some (size bytes))
    lift stored
    ok bytes

  -- `download`: `cached` is the file in the cache, if there is one; `send` knows the URL.
  unfoldable pub download :
      Option (Result B E)
      → (ℕ → Result (Response B E) E)
      → Result (Unit {0}) E
      → Option (Result B (DownloadError E))
  unfolding send_with_retries accept_response
  download (some cached) send stored = some (lift cached)
  download none send stored = elim (send_with_retries send download_attempts 0 []) [
    | none ↦ none
    | some (err error) ↦ some (err error)
    | some (ok (response, sleeps)) ↦ some (accept_response response stored)
  ]
