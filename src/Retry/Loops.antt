-- ===== src/Retry/Loops.antt =====
-- `with_network_download_retry` of src/utils/retry.rs and `with_sqlite_retry` of
-- src/storage/insert/retry.rs, each with the delays that it sleeps. The operation is a parameter,
-- with the number of the attempt as its argument.
use domain_status.Common.{
  ℕ, zero, suc, ◌+◌, ◌-◌, ◌*◌, ◌%◌, ◌^◌, Bool, true, false, not, ◌||◌, Option, none, some, List, [],
  ◌∷◌, ◌++◌, Result, ok, err, ltb, leb, if◌then◌else◌,
}

-- `last` is the operation's last error; `no_attempts` is the message for a loop with no round.
pub data DownloadError (E : Type 0) : Type 0 where
  last : E → DownloadError E
  no_attempts : DownloadError E

abbrev pub max_network_download_retries : ℕ
max_network_download_retries = 3

-- `<<` on a `u64`.
abbrev pub shl : ℕ → ℕ → ℕ
shl x k = (x * 2 ^ k) % 2 ^ 64

abbrev pub unwrap_last : {E : Type 0} → Option E → DownloadError E
unwrap_last none = no_attempts
unwrap_last (some e) = last e

module _ {T E : Type 0} (op : ℕ → Result T E) where
  -- `for attempt in 1..=MAX`, by the rounds that are left.
  unfoldable pub downloads : ℕ → ℕ → ℕ → Option E → List ℕ → Result T (DownloadError E) × List ℕ
  downloads base_delay_secs zero attempt last_error slept = (err (unwrap_last last_error), slept)
  downloads base_delay_secs (suc left) attempt last_error slept = elim (op attempt) [
    | ok value ↦ (ok value, slept)
    | err e ↦ downloads base_delay_secs left (attempt + 1) (some e) (
        if ltb attempt max_network_download_retries
        then slept ++ shl base_delay_secs (attempt - 1) ∷ []
        else slept)
  ]

  unfoldable pub with_network_download_retry : ℕ → Result T (DownloadError E) × List ℕ
  unfolding downloads
  with_network_download_retry base_delay_secs =
      downloads base_delay_secs max_network_download_retries 1 none []

-- The error behind the loop, `PoolClosed`, or one of the operation.
pub data SqliteError (E : Type 0) : Type 0 where
  failed : E → SqliteError E
  pool_closed : SqliteError E

abbrev pub max_retries : ℕ
max_retries = 3

abbrev pub initial_delay_ms : ℕ
initial_delay_ms = 50

module _ {T E : Type 0} (operation : ℕ → Result T E) (is_retriable_error : E → Bool) where
  -- `for attempt in 0..=MAX_RETRIES`, by the rounds that are left.
  unfoldable pub sqlite_attempts : ℕ → ℕ → List ℕ → Result T (SqliteError E) × List ℕ
  sqlite_attempts zero attempt slept = (err pool_closed, slept)
  sqlite_attempts (suc left) attempt slept = elim (operation attempt) [
    | ok result ↦ (ok result, slept)
    | err e ↦ elim (not (is_retriable_error e) || leb max_retries attempt) [
      | true ↦ (err (failed e), slept)
      | false ↦ sqlite_attempts left (attempt + 1) (slept ++ (initial_delay_ms * 2 ^ attempt) ∷ [])
    ]
  ]

  unfoldable pub with_sqlite_retry : Result T (SqliteError E) × List ℕ
  unfolding sqlite_attempts
  with_sqlite_retry = sqlite_attempts (max_retries + 1) 0 []
