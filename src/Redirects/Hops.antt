-- ===== src/Redirects/Hops.antt =====
-- One round of the redirect loop, seen from its result.
use domain_status.Common.{
  ℕ, ◌-◌, ◌≡◌, ◌≢◌, refl, ap, ◌∙◌, ◌⊎◌, inl, inr, Bool, true, false, Option, none, some, [], ◌∷◌,
  ◌++◌, arith, Text, ok, Option-cases, Bool-cases,
}
use domain_status.Security.Url.{Url, UrlCrate}
use domain_status.Redirects.{
  Location, target, Response, Client, is_redirect_status, Walk, stop, continue,
  validate_redirect_target, resolve_location, follow, on_location, on_response, record_hop, hop,
}

-- What the loop hands back of the last response: all of it, unless it is a redirect.
abbrev pub Kept : Response → Option Response → Type 0
Kept resp kept =
    ((is_redirect_status resp.status ≡ false) × (kept ≡ some resp))
    ⊎ ((is_redirect_status resp.status ≡ true) × (kept ≡ none))

module _ (crate : UrlCrate) (client : Client) (max_hops : ℕ) (https loopback : Bool) where
  -- A round that stops has recorded the response to the current URL.
  pub record Stopped (n : ℕ) (w w' : Walk) : Type 0 where
    pub resp : Response
    pub sent : client n w.current ≡ some resp
    pub recorded : w'.chain ≡ w.chain ++ (w.current, resp.status) ∷ []
    pub last : w'.last_fetched_url ≡ w.current
    pub kept : Kept resp w'.final_response

  -- A round that goes on has got a redirect to a target that is allowed.
  pub record Continued (n : ℕ) (w w' : Walk) : Type 0 where
    pub resp : Response
    pub loc : Text
    pub next : Url
    pub sent : client n w.current ≡ some resp
    pub redirect : is_redirect_status resp.status ≡ true
    pub located : resp.location ≡ target loc
    pub resolved : resolve_location crate w.current loc ≡ some next
    pub allowed : validate_redirect_target crate next.href next.scheme https loopback ≡ ok tt
    pub not_last : n ≢ max_hops - 1
    pub moved : w' ≡ record (record_hop w resp) { current = next.href }

  follow-stop :
      (n : ℕ) (w w' : Walk) (o : Option Url)
      → follow crate client max_hops https loopback n w o ≡ ok (stop w')
      → w' ≡ w
  unfolding follow
  follow-stop n w w' none e = absurd (ground arith)
  follow-stop n w w' (some u) e = ground arith

  on_location-stop :
      (n : ℕ) (w w' : Walk) (l : Location)
      → on_location crate client max_hops https loopback n w l ≡ ok (stop w')
      → w' ≡ w
  unfolding on_location
  on_location-stop n w w' (target loc) e = follow-stop n w w' _ e
  on_location-stop n w w' _ e = ground arith

  on_response-stop :
      (n : ℕ) (w w' : Walk) (resp : Response)
      → w.final_response ≡ none
      → on_response crate client max_hops https loopback n w resp ≡ ok (stop w')
      → (w'.chain ≡ w.chain)
        × (w'.last_fetched_url ≡ w.last_fetched_url)
        × Kept resp w'.final_response
  unfolding on_response
  on_response-stop n w w' resp fresh e = elim (Bool-cases (is_redirect_status resp.status)) [
    | inl redirect ↦
        let same = on_location-stop n w w' resp.location (ground arith) in
        (
          ap (λ v. v.chain) same,
          ap (λ v. v.last_fetched_url) same,
          inr (redirect, ap (λ v. v.final_response) same ∙ fresh),
        )
    | inr final ↦ (ground arith, ground arith, inl (final, ground arith))
  ]

  pub hop-Stopped :
      (n : ℕ) (w w' : Walk)
      → w.final_response ≡ none
      → hop crate client max_hops https loopback n w ≡ ok (stop w')
      → Stopped n w w'
  unfolding hop
  hop-Stopped n w w' fresh e = elim (Option-cases (client n w.current)) [
    | inl failed ↦ absurd (ground arith)
    | inr (resp, sent) ↦
        let (chain, last, kept) =
          on_response-stop n (record_hop w resp) w' resp fresh (ground arith) in
        record { resp = resp; sent = sent; recorded = chain; last = last; kept = kept }
  ]

  follow-continue :
      (n : ℕ) (w w' : Walk) (o : Option Url)
      → follow crate client max_hops https loopback n w o ≡ ok (continue w')
      → (next : Url) × (o ≡ some next)
        × (validate_redirect_target crate next.href next.scheme https loopback ≡ ok tt)
        × (n ≢ max_hops - 1)
        × (w' ≡ record w { current = next.href })
  unfolding follow
  follow-continue n w w' none e = absurd (ground arith)
  follow-continue n w w' (some u) e = (u, refl, ground arith, ground arith, ground arith)

  on_location-continue :
      (n : ℕ) (w w' : Walk) (l : Location)
      → on_location crate client max_hops https loopback n w l ≡ ok (continue w')
      → (loc : Text) × (l ≡ target loc)
        × (follow crate client max_hops https loopback n w (resolve_location crate w.current loc)
            ≡ ok (continue w'))
  unfolding on_location
  on_location-continue n w w' (target loc) e = (loc, refl, e)
  on_location-continue n w w' _ e = absurd (ground arith)

  pub hop-Continued :
      (n : ℕ) (w w' : Walk)
      → hop crate client max_hops https loopback n w ≡ ok (continue w')
      → Continued n w w'
  unfolding hop on_response
  hop-Continued n w w' e = elim (Option-cases (client n w.current)) [
    | inl failed ↦ absurd (ground arith)
    | inr (resp, sent) ↦
        let redirect : is_redirect_status resp.status ≡ true = ground arith in
        let (loc, located, followed) =
          on_location-continue n (record_hop w resp) w' resp.location (ground arith) in
        let (next, resolved, allowed, not_last, moved) =
          follow-continue n (record_hop w resp) w' _ followed in
        record {
          resp = resp;
          loc = loc;
          next = next;
          sent = sent;
          redirect = redirect;
          located = located;
          resolved = resolved;
          allowed = allowed;
          not_last = not_last;
          moved = moved;
        }
  ]
