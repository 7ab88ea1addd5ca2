-- ===== src/Retry/Retriable.antt =====
-- Which errors are tried again: `is_retriable_error` of src/utils/retry.rs, `is_retriable` of
-- src/error_handling/reqwest_ext.rs and `categorize_reqwest_error` of
-- src/error_handling/categorization.rs. What they ask of a `reqwest::Error` is a record.
use domain_status.Common.{
  ℕ, Bool, true, false, ◌||◌, ◌&&◌, Option, none, some, List, [], ◌∷◌, leb, ltb, ◌==◌,
  if◌then◌else◌,
}

pub record ReqwestError : Type 0 where
  pub status : Option ℕ
  pub is_builder : Bool
  pub is_redirect : Bool
  pub is_status : Bool
  pub is_timeout : Bool
  pub is_request : Bool
  pub is_connect : Bool
  pub is_body : Bool
  pub is_decode : Bool

pub data ErrorType : Type 0 where
  http_request_builder_error http_request_redirect_error http_request_status_error : ErrorType
  http_request_timeout_error http_request_request_error http_request_connect_error : ErrorType
  http_request_body_error http_request_decode_error http_request_other_error : ErrorType
  http_request_too_many_requests http_request_bot_detection_error : ErrorType
  http_request_bad_request http_request_unauthorized http_request_not_found : ErrorType
  http_request_internal_server_error http_request_bad_gateway : ErrorType
  http_request_service_unavailable http_request_gateway_timeout : ErrorType
  process_url_timeout scan_cancelled : ErrorType
  dns_forward_lookup_error dns_ns_lookup_error dns_txt_lookup_error dns_mx_lookup_error : ErrorType
  dns_cname_lookup_error dns_aaaa_lookup_error dns_caa_lookup_error : ErrorType
  tls_certificate_error technology_detection_error satellite_insert_error : ErrorType

-- The `match` on a status code; `none` falls through to the kind of the error.
unfoldable pub categorize_status : ℕ → Option ErrorType
categorize_status code =
    if code == 400
    then some http_request_bad_request
    else if code == 401
    then some http_request_unauthorized
    else if code == 403
    then some http_request_bot_detection_error
    else if code == 404
    then some http_request_not_found
    else if code == 429
    then some http_request_too_many_requests
    else if code == 500
    then some http_request_internal_server_error
    else if code == 502
    then some http_request_bad_gateway
    else if code == 503
    then some http_request_service_unavailable
    else if code == 504
    then some http_request_gateway_timeout
    else if leb 400 code && ltb code 500
    then some http_request_other_error
    else if leb 500 code && ltb code 600
    then some http_request_other_error
    else none

unfoldable pub categorize_kind : ReqwestError → ErrorType
categorize_kind error =
    if error.is_builder
    then http_request_builder_error
    else if error.is_redirect
    then http_request_redirect_error
    else if error.is_status
    then http_request_status_error
    else if error.is_timeout
    then http_request_timeout_error
    else if error.is_request
    then http_request_request_error
    else if error.is_connect
    then http_request_connect_error
    else if error.is_body
    then http_request_body_error
    else if error.is_decode
    then http_request_decode_error
    else http_request_other_error

abbrev pub status_category : Option ℕ → Option ErrorType
status_category none = none
status_category (some code) = categorize_status code

unfoldable pub categorize_reqwest_error : ReqwestError → ErrorType
unfolding categorize_status categorize_kind
categorize_reqwest_error error = elim (status_category error.status) [
  | some category ↦ category
  | none ↦ categorize_kind error
]

-- The decision on a status code; `none` falls through.
abbrev pub status_retriable : Option ℕ → Option Bool
status_retriable none = none
status_retriable (some code) =
    if code == 429
    then some true
    else if leb 400 code && ltb code 500
    then some false
    else if leb 500 code && ltb code 600
    then some true
    else none

unfoldable pub is_retriable : ReqwestError → Bool
is_retriable error = elim (status_retriable error.status) [
  | some decision ↦ decision
  | none ↦
      if error.is_timeout || error.is_connect || error.is_request
      then true
      else if error.is_redirect || error.is_decode
      then false
      else false
]

-- One cause of an `anyhow::Error`, by the type that it downcasts to.
pub data Cause : Type 0 where
  reqwest : ReqwestError → Cause
  url_parse sqlx dns other : Cause

-- The loop over `error.chain()`.
unfoldable pub is_retriable_error : List Cause → Bool
unfolding is_retriable
is_retriable_error [] = false
is_retriable_error (reqwest e ∷ causes) = is_retriable e
is_retriable_error (url_parse ∷ causes) = false
is_retriable_error (sqlx ∷ causes) = false
is_retriable_error (dns ∷ causes) = true
is_retriable_error (other ∷ causes) = is_retriable_error causes
