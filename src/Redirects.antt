-- ===== src/Redirects.antt =====
-- src/fetch/redirects.rs: the redirect chain of a URL, followed by hand. The HTTP client and the
-- `url` crate are parameters.
mod Hops
pub mod Trace
pub mod Safety
mod Tests
use domain_status.Common.{
  ℕ, zero, suc, ◌+◌, ◌-◌, Bool, false, not, ◌&&◌, ◌||◌, Option, none, some, List, [], ◌∷◌, ◌++◌,
  Text, codes, text_eq, Result, ok, err, ◌>>=◌, ◌>>◌, ◌==◌, if◌then◌else◌, get_last?,
}
use domain_status.Security.Net.V4
use domain_status.Security.Net.V6
use domain_status.Security.Url.{Host, domain, ipv4, ipv6, Url, UrlCrate, validate_url_safe}

-- The `Location` header of a response: `to_str` fails on a value that is not text.
pub data Location : Type 0 where
  absent : Location
  not_text : Location
  target : Text → Location

pub record Response : Type 0 where
  pub status : ℕ
  pub location : Location

-- `client.get(url).send()`; `none` is a failed request. The network may answer the same URL
-- differently at each request, so the number of the request is an argument.
abbrev pub Client : Type 0
Client = ℕ → Text → Option Response

pub data RedirectError : Type 0 where
  no_hops unsafe_initial request_failed bad_location : RedirectError

pub data TargetError : Type 0 where
  downgrade unsafe_target : TargetError

-- `is_redirect_status`.
unfoldable pub is_redirect_status : ℕ → Bool
is_redirect_status code = code == 301 || code == 302 || code == 303 || code == 307 || code == 308

abbrev is_loopback_host : Option Host → Bool
is_loopback_host none = false
is_loopback_host (some (domain d)) = false
is_loopback_host (some (ipv4 ip)) = V4.is_loopback ip
is_loopback_host (some (ipv6 ip)) = V6.is_loopback ip

abbrev with_error {ℓ κ ρ} : {A : Type ℓ} {E : Type κ} {F : Type ρ} → F → Result A E → Result A F
with_error f (ok a) = ok a
with_error f (err e) = err f

-- The variables of the loop.
pub record Walk : Type 0 where
  pub chain : List (Text × ℕ)
  pub current : Text
  pub last_fetched_url : Text
  pub final_response : Option Response

pub data Flow : Type 0 where
  stop continue : Walk → Flow

pub record Resolved : Type 0 where
  pub final_url : Text
  pub chain : List (Text × ℕ)
  pub response : Option Response

-- What a round records of a response.
abbrev pub record_hop : Walk → Response → Walk
record_hop w resp = record w {
  chain = w.chain ++ (w.current, resp.status) ∷ [];
  last_fetched_url = w.current;
}

-- The guard behind the loop, which pushes the last URL with status 0 if the chain lacks it.
unfoldable pub last_url_is : List (Text × ℕ) → Text → Bool
last_url_is chain url = elim (get_last? chain) [ none ↦ false | some (u, _) ↦ text_eq u url ]

unfoldable pub close : Walk → Resolved
unfolding last_url_is
close w = record {
  final_url = w.last_fetched_url;
  chain =
      if not (last_url_is w.chain w.last_fetched_url)
      then w.chain ++ (w.last_fetched_url, 0) ∷ []
      else w.chain;
  response = w.final_response;
}

abbrev pub start_walk : Text → Walk
start_walk url = record { chain = []; current = url; last_fetched_url = url; final_response = none }

module _ (crate : UrlCrate) where
  unfoldable pub is_loopback_url : Text → Bool
  is_loopback_url url_str = elim (crate.parse url_str) [
    | none ↦ false
    | some u ↦ is_loopback_host u.host
  ]

  unfoldable pub validate_redirect_target :
      Text → Text → Bool → Bool → Result (Unit {0}) TargetError
  validate_redirect_target new_url_str new_scheme chain_started_https allow_loopback =
      if chain_started_https && text_eq new_scheme (codes "http")
      then err downgrade
      else (let skip_validation = allow_loopback && is_loopback_url new_url_str in
          if not skip_validation
          then with_error unsafe_target (validate_url_safe crate new_url_str)
          else ok tt)

  -- `Url::parse(loc).or_else(|_| Url::parse(&current).and_then(|base| base.join(loc)))`
  unfoldable pub resolve_location : Text → Text → Option Url
  resolve_location current loc = elim (crate.parse loc) [
    | some u ↦ some u
    | none ↦ elim (crate.parse current) [ none ↦ none | some base ↦ crate.join base loc ]
  ]

  -- Whether the start URL is an https URL.
  unfoldable pub starts_https : Text → Bool
  starts_https url_str = elim (crate.parse url_str) [
    | none ↦ false
    | some u ↦ text_eq u.scheme (codes "https")
  ]

  module _ (client : Client) (max_hops : ℕ) (chain_started_https allow_loopback : Bool) where
    -- What follows on a `Location` that resolves to a URL, and on one that does not.
    unfoldable pub follow : ℕ → Walk → Option Url → Result Flow RedirectError
    follow hop_num w none = err bad_location
    follow hop_num w (some new_url) =
        elim (validate_redirect_target new_url.href new_url.scheme chain_started_https
          allow_loopback) [
            | err e ↦ ok (stop w)
            | ok u ↦
                if hop_num == max_hops - 1
                then ok (stop w)
                else ok (continue (record w { current = new_url.href }))
          ]

    unfoldable pub on_location : ℕ → Walk → Location → Result Flow RedirectError
    on_location hop_num w absent = ok (stop w)
    on_location hop_num w not_text = ok (stop w)
    on_location hop_num w (target loc) = follow hop_num w (resolve_location w.current loc)

    unfoldable pub on_response : ℕ → Walk → Response → Result Flow RedirectError
    on_response hop_num w resp =
        if is_redirect_status resp.status
        then on_location hop_num w resp.location
        else ok (stop (record w { final_response = some resp }))

    -- The body of the loop.
    unfoldable pub hop : ℕ → Walk → Result Flow RedirectError
    hop hop_num w = elim (client hop_num w.current) [
      | none ↦ err request_failed
      | some resp ↦ on_response hop_num (record_hop w resp) resp
    ]

    -- `for hop_num in 0..max_hops`, by the rounds that are left.
    unfoldable pub walk : ℕ → ℕ → Walk → Result Walk RedirectError
    walk zero hop_num w = ok w
    walk (suc left) hop_num w = do
      flow ← hop hop_num w
      elim flow [ stop w' ↦ ok w' | continue w' ↦ walk left (hop_num + 1) w' ]

  unfoldable pub validate_initial : Text → Bool → Result (Unit {0}) RedirectError
  validate_initial start_url allow_loopback =
      let skip_initial_validation = allow_loopback && is_loopback_url start_url in
      if not skip_initial_validation
      then with_error unsafe_initial (validate_url_safe crate start_url)
      else ok tt

  unfoldable pub resolve_redirect_chain : Client → Text → ℕ → Bool → Result Resolved RedirectError
  unfolding walk hop close on_response on_location follow
  resolve_redirect_chain client start_url max_hops allow_loopback =
      if max_hops == 0 then err no_hops else do
        validate_initial start_url allow_loopback
        w ←
            walk client max_hops (starts_https start_url) allow_loopback max_hops 0
              (start_walk start_url)
        ok (close w)
