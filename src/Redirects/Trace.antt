-- ===== src/Redirects/Trace.antt =====
-- The whole chain as a trace of requests.
use domain_status.Common.{
  ℕ, zero, suc, ◌+◌, ◌≤◌, ◌≡◌, ◌≢◌, refl, ap, sym, ◌∙◌, ◌⊎◌, inl, inr, Bool, true, Option, none,
  some, List, [], ◌∷◌, ◌++◌, arith, Text, text_eq_iff, ok, ◌==◌, Bool-cases, >>=-eq-ok, length,
  get_last?,
}
use mathlib.Core.List.{append_assoc}
use mathlib.Core.Path.{subst}
use domain_status.Security.Url.{Url, UrlCrate}
use domain_status.Redirects.{
  target, Response, Client, is_redirect_status, Walk, Flow, stop, continue, Resolved,
  validate_redirect_target, validate_initial, resolve_location, hop, walk, close, last_url_is,
  starts_https, start_walk, resolve_redirect_chain,
}
use domain_status.Redirects.Hops.{Kept, Stopped, Continued, hop-Stopped, hop-Continued}

get_last?-cons {ℓ} :
    {A : Type ℓ} (x : A) (xs : List A) {y : A} → get_last? xs ≡ some y → get_last? (x ∷ xs) ≡ some y
get_last?-cons x [] e = cc
get_last?-cons x (z ∷ xs) e = e

module _ (crate : UrlCrate) (client : Client) (https loopback : Bool) where
  -- `Trace n url chain last kept`: from request `n` on, the requests go to the URLs of `chain`, of
  -- which `url` is the first and `last` the last, with the statuses recorded there; each response
  -- but the last is a redirect whose target is allowed and is the URL of the next request; the
  -- last response is `kept`, if it is no redirect.
  pub data Trace (last : Text) (kept : Option Response) : ℕ → Text → List (Text × ℕ) → Type 0 where
    final :
        {n : ℕ} {url : Text} (resp : Response)
        → client n url ≡ some resp
        → last ≡ url
        → Kept resp kept
        → Trace last kept n url ((url, resp.status) ∷ [])
    redirected :
        {n : ℕ} {url : Text} {rest : List (Text × ℕ)} (resp : Response) (loc : Text) (next : Url)
        → client n url ≡ some resp
        → is_redirect_status resp.status ≡ true
        → resp.location ≡ target loc
        → resolve_location crate url loc ≡ some next
        → validate_redirect_target crate next.href next.scheme https loopback ≡ ok tt
        → Trace last kept (n + 1) next.href rest
        → Trace last kept n url ((url, resp.status) ∷ rest)

  module _ (max_hops : ℕ) where
    -- What `left` rounds add to the chain, started at request `n`.
    pub record Walked (left n : ℕ) (w w' : Walk) : Type 0 where
      pub added : List (Text × ℕ)
      pub chain : w'.chain ≡ w.chain ++ added
      pub trace : Trace w'.last_fetched_url w'.final_response n w.current added
      pub bounded : length added ≤ left

    walk-step :
        (left n : ℕ) (w w' : Walk)
        → walk crate client max_hops https loopback (suc left) n w ≡ ok w'
        → (hop crate client max_hops https loopback n w ≡ ok (stop w'))
          ⊎ ((v : Walk) × (hop crate client max_hops https loopback n w ≡ ok (continue v))
              × (walk crate client max_hops https loopback left (n + 1) v ≡ ok w'))
    unfolding walk
    walk-step left n w w' e =
        let (flow, ran, later) = >>=-eq-ok (hop crate client max_hops https loopback n w) _ e in
        go flow ran later
      where
        go :
            (flow : Flow)
            → hop crate client max_hops https loopback n w ≡ ok flow
            → (elim flow [
              | stop v ↦ ok v
              | continue v ↦ walk crate client max_hops https loopback left (n + 1) v
            ])
              ≡ ok w'
            → (hop crate client max_hops https loopback n w ≡ ok (stop w'))
              ⊎ ((v : Walk) × (hop crate client max_hops https loopback n w ≡ ok (continue v))
                  × (walk crate client max_hops https loopback left (n + 1) v ≡ ok w'))
        go (stop v) ran later = inl (cc)
        go (continue v) ran later = inr (v, ran, later)

    Stopped-Walked :
        {left n : ℕ} {w w' : Walk}
        → Stopped crate client max_hops https loopback n w w'
        → Walked (suc left) n w w'
    Stopped-Walked {w} s = record {
      added = (w.current, s.resp.status) ∷ [];
      chain = s.recorded;
      trace = final s.resp s.sent s.last s.kept;
      bounded = omega arith;
    }

    Continued-Walked :
        {left n : ℕ} {w v w' : Walk}
        → Continued crate client max_hops https loopback n w v
        → Walked left (n + 1) v w'
        → Walked (suc left) n w w'
    Continued-Walked {w} {w'} c rest = record {
      added = (w.current, c.resp.status) ∷ rest.added;
      chain =
          rest.chain
          ∙ ap (λ v. v.chain ++ rest.added) c.moved
          ∙ append_assoc w.chain ((w.current, c.resp.status) ∷ []) rest.added;
      trace = redirected c.resp c.loc c.next c.sent c.redirect c.located c.resolved c.allowed (
          subst (λ u. Trace w'.last_fetched_url w'.final_response _ u rest.added)
            (ap (λ v. v.current) c.moved) rest.trace);
      bounded = omega (arith, rest.bounded);
    }

    walk-Walked :
        (left n : ℕ) (w w' : Walk)
        → n + suc left ≡ max_hops
        → w.final_response ≡ none
        → walk crate client max_hops https loopback (suc left) n w ≡ ok w'
        → Walked (suc left) n w w'
    walk-Walked zero n w w' sum fresh e = elim (walk-step zero n w w' e) [
      | inl ran ↦ Stopped-Walked (hop-Stopped crate client max_hops https loopback n w w' fresh ran)
      | inr (v, ran, later) ↦
          let c = hop-Continued crate client max_hops https loopback n w v ran in
          absurd (c.not_last (omega arith))
    ]
    walk-Walked (suc left) n w w' sum fresh e = elim (walk-step (suc left) n w w' e) [
      | inl ran ↦ Stopped-Walked (hop-Stopped crate client max_hops https loopback n w w' fresh ran)
      | inr (v, ran, later) ↦
          let c = hop-Continued crate client max_hops https loopback n w v ran in
          Continued-Walked c (
            walk-Walked left (n + 1) v w' (omega arith) (ap (λ x. x.final_response) c.moved ∙ fresh)
              later)
    ]

    walk-Walked_pos :
        (left n : ℕ) (w w' : Walk)
        → left ≢ 0
        → n + left ≡ max_hops
        → w.final_response ≡ none
        → walk crate client max_hops https loopback left n w ≡ ok w'
        → Walked left n w w'
    walk-Walked_pos zero n w w' pos sum fresh e = absurd (pos refl)
    walk-Walked_pos (suc left) n w w' pos sum fresh e = walk-Walked left n w w' sum fresh e

  -- A trace ends with the URL that was fetched last.
  Trace-last :
      {last : Text} {kept : Option Response} {n : ℕ} {url : Text} {chain : List (Text × ℕ)}
      → Trace last kept n url chain
      → (status : ℕ) × (get_last? chain ≡ some (last, status))
  Trace-last (final resp sent same k) = (resp.status, ap (λ u. some (u, resp.status)) (sym same))
  Trace-last (redirected {url} {rest} resp loc next a b c d e t) =
      let (status, at_end) = Trace-last t in (status, get_last?-cons (url, resp.status) rest at_end)

-- Behind a loop that has recorded its last URL the guard adds nothing.
close-recorded :
    (w : Walk) (status : ℕ)
    → get_last? w.chain ≡ some (w.last_fetched_url, status)
    → close w
      ≡ record { final_url = w.last_fetched_url; chain = w.chain; response = w.final_response }
unfolding close last_url_is
close-recorded w status e = ground (arith, text_eq_iff w.last_fetched_url w.last_fetched_url)

module _ (crate : UrlCrate) (client : Client) (start : Text) (max_hops : ℕ) (loopback : Bool) where
  -- What a resolved chain is.
  pub record IsResolved (r : Resolved) : Type 0 where
    pub allowed : validate_initial crate start loopback ≡ ok tt
    pub trace :
        Trace crate client
          (starts_https crate start)
          loopback
          r.final_url
          r.response
          0
          start
          r.chain
    pub bounded : length r.chain ≤ max_hops
    pub status : ℕ
    pub ends : get_last? r.chain ≡ some (r.final_url, status)

  walk-IsResolved :
      (w : Walk)
      → validate_initial crate start loopback ≡ ok tt
      → max_hops ≢ 0
      → walk crate client max_hops (starts_https crate start) loopback max_hops 0 (start_walk start)
        ≡ ok w
      → IsResolved (close w)
  walk-IsResolved w allowed some_hops e =
      let d =
        walk-Walked_pos crate client (starts_https crate start) loopback max_hops max_hops 0
          (start_walk start) w some_hops (omega arith) refl e in
      let trace =
        subst
          (Trace crate client (starts_https crate start) loopback w.last_fetched_url
            w.final_response 0 start)
          (sym d.chain) d.trace in
      let (status, ends) = Trace-last crate client (starts_https crate start) loopback trace in
      subst IsResolved (sym (close-recorded w status ends)) (record {
        allowed = allowed;
        trace = trace;
        bounded = omega (arith, d.bounded, ap length d.chain);
        status = status;
        ends = ends;
      })

-- The chain of a resolved URL is a trace of real requests from the start URL, which passed its
-- check: each entry is the URL and the status of one response, and each but the last redirects to
-- the next. It holds at most `max_hops` entries, ends with `final_url`, and the response handed
-- back is the last one, unless that is a redirect too.
pub resolve_redirect_chain-IsResolved :
    (crate : UrlCrate) (client : Client) (start : Text) (max_hops : ℕ) (loopback : Bool)
    (r : Resolved)
    → resolve_redirect_chain crate client start max_hops loopback ≡ ok r
    → IsResolved crate client start max_hops loopback r
unfolding resolve_redirect_chain
resolve_redirect_chain-IsResolved crate client start max_hops loopback r e =
    elim (Bool-cases (max_hops == 0)) [
      | inl none_left ↦ absurd (ground arith)
      | inr some_left ↦
          let (u, allowed, rest) =
            >>=-eq-ok (validate_initial crate start loopback) _ (rw some_left at e) in
          let (w, walked, closed) =
            >>=-eq-ok
              (walk crate client max_hops (starts_https crate start) loopback max_hops 0
                (start_walk start))
              _ rest in
          subst (IsResolved crate client start max_hops loopback) (ground arith)
            (walk-IsResolved crate client start max_hops loopback w allowed (ground arith) walked)
    ]
