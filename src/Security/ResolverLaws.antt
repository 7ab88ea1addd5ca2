-- ===== src/Security/ResolverLaws.antt =====
-- The answers of SafeResolver against those of the resolver that it wraps.
use domain_status.Common.{
  ◌≡◌, ◌≢◌, refl, sym, ap, ◌∙◌, inl, inr, ◌↔◌, true, false, List, [], ◌∷◌, map, arith, Text, Result,
  ok, err, is_empty, All, if◌then◌else◌, Bool-cases,
}
use domain_status.Security.Net.{IpAddr}
use domain_status.Security.Ip.{is_private_ip}
use domain_status.Security.Resolver.{
  SocketAddr, ResolveError, permission_denied, is_public_ip, filter, at_port_zero,
  filter_public_socket_addrs, resolve,
}

-- The public addresses of an answer, in its order, each at port 0, as a relation.
pub data Publics : List IpAddr → List SocketAddr → Type 0 where
  done : Publics [] []
  keep :
      {ip : IpAddr} {ips : List IpAddr} {addrs : List SocketAddr}
      → is_private_ip ip ≡ false
      → Publics ips addrs
      → Publics (ip ∷ ips) (at_port_zero ip ∷ addrs)
  drop :
      {ip : IpAddr} {ips : List IpAddr} {addrs : List SocketAddr}
      → is_private_ip ip ≡ true
      → Publics ips addrs
      → Publics (ip ∷ ips) addrs

filter-Publics :
    (ips : List IpAddr) → Publics ips (filter (λ addr. is_public_ip addr.ip) (map at_port_zero ips))
unfolding filter is_public_ip
filter-Publics [] = done
filter-Publics (ip ∷ ips) = elim (Bool-cases (is_private_ip ip)) [
  | inl private ↦ rw private (drop private (filter-Publics ips))
  | inr public ↦ rw public (keep public (filter-Publics ips))
]

All-private-Publics : {ips : List IpAddr} → Publics ips [] → All (λ ip. is_private_ip ip ≡ true) ips
All-private-Publics p = go p refl
  where
    go :
        {ips : List IpAddr} {addrs : List SocketAddr}
        → Publics ips addrs
        → addrs ≡ []
        → All (λ ip. is_private_ip ip ≡ true) ips
    go done e = tt
    go (keep h p) e = cc
    go (drop h p) e = (h, go p e)

filter-All-private :
    (ips : List IpAddr)
    → All (λ ip. is_private_ip ip ≡ true) ips
    → filter (λ addr. is_public_ip addr.ip) (map at_port_zero ips) ≡ []
unfolding filter is_public_ip
filter-All-private [] h = refl
filter-All-private (ip ∷ ips) h = rw h.0 (filter-All-private ips h.1)

-- What the empty-list check makes of a filtered list.
checked : List SocketAddr → Result (List SocketAddr) ResolveError
checked l = if is_empty l then err permission_denied else ok l

checked-ok :
    (l : List SocketAddr) {addrs : List SocketAddr}
    → checked l ≡ ok addrs
    → (l ≡ addrs) × (addrs ≢ [])
unfolding checked
checked-ok [] e = absurd (ground arith)
checked-ok (x ∷ l) e = (ground arith, λ h. ground arith)

checked-err : (l : List SocketAddr) {e : ResolveError} → checked l ≡ err e → l ≡ []
unfolding checked
checked-err [] e = refl
checked-err (x ∷ l) e = absurd (ground arith)

module _ (lookup_ip : Text → Result (List IpAddr) ResolveError) (name : Text) (ips : List IpAddr)
    (answer : lookup_ip name ≡ ok ips) where
  resolve-checked :
      resolve lookup_ip name
      ≡ checked (filter (λ addr. is_public_ip addr.ip) (map at_port_zero ips))
  unfolding resolve filter_public_socket_addrs checked
  resolve-checked = rw answer

-- The resolver returns the public addresses of the answer, all of them, in order, and never the
-- empty list.
pub resolve-Publics :
    (lookup_ip : Text → Result (List IpAddr) ResolveError) (name : Text) (ips : List IpAddr)
    (addrs : List SocketAddr)
    → lookup_ip name ≡ ok ips
    → resolve lookup_ip name ≡ ok addrs
    → Publics ips addrs × (addrs ≢ [])
resolve-Publics lookup_ip name ips addrs answer e =
    let (same, nonempty) = checked-ok _ (sym (resolve-checked lookup_ip name ips answer) ∙ e) in
    (rw same at (filter-Publics ips), nonempty)

-- An answer is refused exactly when every address in it is private.
pub resolve_denied_iff :
    (lookup_ip : Text → Result (List IpAddr) ResolveError) (name : Text) (ips : List IpAddr)
    → lookup_ip name ≡ ok ips
    → (resolve lookup_ip name ≡ err permission_denied) ↔ All (λ ip. is_private_ip ip ≡ true) ips
resolve_denied_iff lookup_ip name ips answer =
    let shape = resolve-checked lookup_ip name ips answer in
    (
      λ e. All-private-Publics (rw (checked-err _ (sym shape ∙ e)) at (filter-Publics ips)),
      λ h. shape ∙ ap checked (filter-All-private ips h) ∙ unfold checked in refl,
    )
