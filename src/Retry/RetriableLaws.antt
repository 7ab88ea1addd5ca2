-- ===== src/Retry/RetriableLaws.antt =====
-- The retry decision against what the functions document, and against the category of the error.
use domain_status.Common.{
  ℕ, ◌≤◌, ◌<◌, ◌≡◌, refl, ◌⊎◌, inl, inr, ◌↔◌, Bool, true, false, ◌||◌, ◌&&◌, Option, none, some,
  arith, leb, ltb, Option-cases, Bool-cases, ◌==◌,
}
use domain_status.Retry.Retriable.{
  ReqwestError, ErrorType, http_request_bad_request, http_request_unauthorized,
  http_request_bot_detection_error, http_request_not_found, http_request_too_many_requests,
  http_request_internal_server_error, http_request_bad_gateway, http_request_service_unavailable,
  http_request_gateway_timeout, categorize_status, categorize_kind, categorize_reqwest_error,
  is_retriable, status_retriable,
}

-- The documented rule on an error with a status: 429 and 5xx are tried again, other 4xx are not,
-- and any other status leaves it to the kind of the error, as no status does.
pub data ShouldRetry (e : ReqwestError) : Type 0 where
  too_many : e.status ≡ some 429 → ShouldRetry e
  server : (code : ℕ) → e.status ≡ some code → 500 ≤ code → code < 600 → ShouldRetry e
  transport :
      (e.status ≡ none) ⊎ ((code : ℕ) × (e.status ≡ some code) × ((code < 400) ⊎ (600 ≤ code)))
      → (e.is_timeout ≡ true) ⊎ (e.is_connect ≡ true) ⊎ (e.is_request ≡ true)
      → ShouldRetry e

by_kind :
    (e : ReqwestError)
    → (e.is_timeout || e.is_connect || e.is_request) ≡ true
    → (e.is_timeout ≡ true) ⊎ (e.is_connect ≡ true) ⊎ (e.is_request ≡ true)
by_kind e h = ground arith

silent_code :
    (code : ℕ)
    → (code == 429) ≡ false
    → (leb 400 code && ltb code 500) ≡ false
    → (leb 500 code && ltb code 600) ≡ false
    → (code < 400) ⊎ (600 ≤ code)
silent_code code a b c = ground arith

is_retriable_sound : (e : ReqwestError) → is_retriable e ≡ true → ShouldRetry e
unfolding is_retriable
is_retriable_sound e h = elim (Option-cases e.status) [
  | inl missing ↦ transport (inl missing) (by_kind e (ground arith))
  | inr (code, s) ↦ elim (Bool-cases (code == 429)) [
    | inl limited ↦ too_many (ground arith)
    | inr a ↦ elim (Bool-cases (leb 400 code && ltb code 500)) [
      | inl client ↦ absurd (ground arith)
      | inr b ↦ elim (Bool-cases (leb 500 code && ltb code 600)) [
        | inl failing ↦ server code s (ground arith) (ground arith)
        | inr c ↦ transport (inr (code, s, silent_code code a b c)) (by_kind e (ground arith))
      ]
    ]
  ]
]

is_retriable_complete : {e : ReqwestError} → ShouldRetry e → is_retriable e ≡ true
unfolding is_retriable
is_retriable_complete (too_many s) = ground arith
is_retriable_complete (server code s lo hi) = ground arith
is_retriable_complete (transport (inl s) k) = ground arith
is_retriable_complete (transport (inr (code, s, range)) k) = ground arith

-- `is_retriable` is the documented rule.
pub is_retriable_iff : (e : ReqwestError) → (is_retriable e ≡ true) ↔ ShouldRetry e
is_retriable_iff e = (is_retriable_sound e, is_retriable_complete)

-- What the categories that stand for one status code say of a retry.
abbrev pub verdict : ErrorType → Option Bool
verdict http_request_bad_request = some false
verdict http_request_unauthorized = some false
verdict http_request_bot_detection_error = some false
verdict http_request_not_found = some false
verdict http_request_too_many_requests = some true
verdict http_request_internal_server_error = some true
verdict http_request_bad_gateway = some true
verdict http_request_service_unavailable = some true
verdict http_request_gateway_timeout = some true
verdict _ = none

kind-verdict : (e : ReqwestError) → verdict (categorize_kind e) ≡ none
unfolding categorize_kind
kind-verdict e = ground arith

abbrev verdict_of : Option ErrorType → Option Bool
verdict_of none = none
verdict_of (some t) = verdict t

status-verdict :
    (code : ℕ) (b : Bool)
    → verdict_of (categorize_status code) ≡ some b
    → status_retriable (some code) ≡ some b
unfolding categorize_status
status-verdict code b v = ground arith

code-verdict :
    (e : ReqwestError) (code : ℕ) (b : Bool)
    → e.status ≡ some code
    → verdict (categorize_reqwest_error e) ≡ some b
    → verdict_of (categorize_status code) ≡ some b
unfolding categorize_reqwest_error
code-verdict e code b s v = elim (Option-cases (categorize_status code)) [
  | inl silent ↦ absurd (ground (arith, kind-verdict e))
  | inr (t, known) ↦ ground arith
]

-- An error whose category stands for one status code is retried if that code is 429 or a 5xx, and
-- not if it is another 4xx: the statistics and the retries agree.
pub is_retriable-categorize :
    (e : ReqwestError) (b : Bool)
    → verdict (categorize_reqwest_error e) ≡ some b
    → is_retriable e ≡ b
unfolding is_retriable
is_retriable-categorize e b v = elim (Option-cases e.status) [
  | inl missing ↦ absurd (unfold categorize_reqwest_error in ground (arith, kind-verdict e))
  | inr (code, s) ↦
      let decided = status-verdict code b (code-verdict e code b s v) in
      rw (s, is_retriable) (rw decided refl)
]
