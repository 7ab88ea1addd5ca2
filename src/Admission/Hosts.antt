-- ===== src/Admission/Hosts.antt =====
-- HostRateLimiter: a bucket for each host, refilled by the tasks that wait for it.
use domain_status.Common.{
  ℕ, ◌/◌, max, Bool, true, false, Option, none, some, List, [], ◌∷◌, ◌++◌, Text, codes, text_eq,
  to_ascii_lowercase, ◌==◌, if◌then◌else◌,
}
use domain_status.Security.Url.{Url, UrlCrate}
use domain_status.Admission.Bucket.{Floats, Bucket, new_bucket, compute, add_pending, acquire}

-- `Option::map`.
abbrev map_option : (Text → Text) → Option Text → Option Text
map_option g none = none
map_option g (some t) = some (g t)

-- In milliseconds.
unfoldable pub per_host_retry_delay : ℕ → ℕ
per_host_retry_delay rps = if rps == 0 then 100 else 1000 / max rps 1

abbrev pub per_host_rate_limit_rps : ℕ
per_host_rate_limit_rps = 2

abbrev pub per_host_rate_limit_burst : ℕ
per_host_rate_limit_burst = 2

-- `host_str` prints the host of a URL.
module _ (crate : UrlCrate) (host_str : Url → Option Text) where
  unfoldable pub parse_url_for_host : Text → Option Url
  parse_url_for_host url = elim (crate.parse url) [
    | some u ↦ some u
    | none ↦ crate.parse (codes "https://" ++ url)
  ]

  unfoldable pub host_key : Text → Option Text
  unfolding parse_url_for_host
  host_key url = elim (parse_url_for_host url) [
    | none ↦ none
    | some u ↦ map_option to_ascii_lowercase (host_str u)
  ]

module _ (f : Floats) where
  pub record HostRateLimiter : Type 0 where
    pub rps : ℕ
    pub burst : ℕ
    pub buckets : List (Text × Bucket f)

  unfoldable pub new_limiter : ℕ → ℕ → HostRateLimiter
  new_limiter rps burst = record { rps = rps; burst = max burst 1; buckets = [] }

  unfoldable pub init_host_rate_limiter : ℕ → Option HostRateLimiter
  unfolding new_limiter
  init_host_rate_limiter global_rps =
      if global_rps == 0
      then none
      else some (new_limiter per_host_rate_limit_rps per_host_rate_limit_burst)

  unfoldable pub lookup : Text → List (Text × Bucket f) → Option (Bucket f)
  lookup host [] = none
  lookup host ((h, b) ∷ rest) = if text_eq host h then some b else lookup host rest

  -- The map with the bucket of `host` replaced, or added.
  unfoldable pub store : Text → Bucket f → List (Text × Bucket f) → List (Text × Bucket f)
  store host b [] = (host, b) ∷ []
  store host b ((h, c) ∷ rest) =
      let others = store host b rest in if text_eq host h then (h, b) ∷ rest else (h, c) ∷ others

  -- `entry(host).or_insert_with(...)`: a new bucket is full.
  unfoldable pub bucket : HostRateLimiter → Text → ℕ → Bucket f
  unfolding lookup
  bucket l host now = elim (lookup host l.buckets) [
    | some b ↦ b
    | none ↦ new_bucket f l.rps l.burst now
  ]

  abbrev pub add_computed : Option ℕ → Bucket f → Bucket f
  add_computed none b = b
  add_computed (some n) b = add_pending f n b

  -- `HostBucket::refill` at the time `now`.
  unfoldable pub refill : ℕ → Bucket f → Bucket f
  refill now b = let computed = compute f now b in add_computed computed.pending computed

  -- `HostBucket::acquire`, a round at each of the times `rounds`: the bucket, and whether a token
  -- was taken or the task still waits.
  unfoldable pub acquire_at : List ℕ → Bucket f → Bucket f × Bool
  unfolding refill acquire
  acquire_at [] b = (b, false)
  acquire_at (now ∷ rounds) b =
      let refilled = refill now b in
      let waiting = acquire_at rounds refilled in
      elim (acquire f refilled) [ some c ↦ (c, true) | none ↦ waiting ]

  -- `HostRateLimiter::acquire` for a URL with the host key `key`.
  unfoldable pub acquire_host : Option Text → ℕ → List ℕ → HostRateLimiter → HostRateLimiter
  unfolding store bucket acquire_at
  acquire_host none now rounds l = l
  acquire_host (some host) now rounds l =
      let b = bucket l host now in
      record l { buckets = store host (acquire_at rounds b).0 l.buckets }
