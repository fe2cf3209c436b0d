-- ===== src/Config/Sockets/Steps.antt =====
-- One round of the validation of listen sockets, as a test and an update.
use mathlib.Core.Bool.{xor}
use mathlib.Core.Path.{subst}
use tiny_proxy.Base.{
  ==_iff, Bool, Bool-cases, List, Option, Option-cases, and_parts, arith, false, if◌then◌else◌, inl,
  inr, is_some, none, not, refl, some, true, ◌&&◌, ◌==◌, ◌||◌, ◌↔◌, ◌∙◌, ◌∷◌, ◌≡◌,
}
use tiny_proxy.Base.Result.{ok, ◌>>=◌}
use tiny_proxy.Base.Text.{Text, text_eq}
use tiny_proxy.Base.Text.Eq.{text_eq_iff, text_eq_refl}
use tiny_proxy.Config.Address.{SocketAddr, resolve_listen_addr}
use tiny_proxy.Config.Models.{SiteConfig}
use tiny_proxy.Config.Sockets.{
  Seen, addr_eq, check_site, check_sni, check_tls, sni_at, sni_of, tls_at,
}
use tiny_proxy.Http.{Codec}

pub addr_eq_iff : (a b : SocketAddr) → (addr_eq a b ≡ true) ↔ (a ≡ b)
unfolding addr_eq
addr_eq_iff a b = (
  λ e.
      let (same_ip, same_port) = and_parts (text_eq a.ip b.ip) (a.port == b.port) e in
      cc ((text_eq_iff a.ip b.ip).0 same_ip, (==_iff a.port b.port).0 same_port),
  λ e. rw e (ground (arith, text_eq_refl b.ip)),
)

-- Whether a socket with this mode, and this name if it is a TLS socket, fits to the sites seen.
abbrev pub same_mode : Option Bool → Bool → Bool
same_mode none t = true
same_mode (some u) t = not (xor u t)

unfoldable pub fits : SocketAddr → Bool → Text → Seen → Bool
fits a t n seen =
    same_mode (tls_at a seen.socket_tls) t && (not t || not (is_some (sni_at a n seen.socket_sni)))

-- What is seen after such a site.
abbrev pub noted :
    Option Bool → SocketAddr → Bool → List (SocketAddr × Bool) → List (SocketAddr × Bool)
noted none a t m = (a, t) ∷ m
noted (some u) a t m = m

unfoldable pub after : SocketAddr → Bool → Text → Text → Seen → Seen
after a t n address seen = record {
  socket_tls = noted (tls_at a seen.socket_tls) a t seen.socket_tls;
  socket_sni = if t then (a, n, address) ∷ seen.socket_sni else seen.socket_sni;
}

-- Whether two such sites may stand in one configuration.
unfoldable pub apart : SocketAddr → Bool → Text → SocketAddr → Bool → Text → Bool
apart a t n b u m = not (addr_eq a b) || (not (xor t u) && (not t || not (text_eq n m)))

pub xor_eq : (u t : Bool) → (not (xor u t) ≡ true) ↔ (u ≡ t)
unfolding xor
xor_eq true true = ground arith
xor_eq true false = ground arith
xor_eq false true = ground arith
xor_eq false false = ground arith

-- A site that is noted, seen from its own socket.
fits-after_self :
    (a : SocketAddr) (t : Bool) (n address : Text) (seen : Seen) (u : Bool) (m : Text)
    → fits a t n seen ≡ true
    → fits a u m (after a t n address seen) ≡ (fits a u m seen && apart a t n a u m)
unfolding fits after apart tls_at sni_at
fits-after_self a t n address seen u m e = elim (Option-cases (tls_at a seen.socket_tls)) [
  | inl unseen ↦ ground (arith, (addr_eq_iff a a).1 refl, xor_eq t u)
  | inr (v, old) ↦ ground (arith, (addr_eq_iff a a).1 refl, xor_eq v t, xor_eq v u, xor_eq t u)
]

fits-after_other :
    (a : SocketAddr) (t : Bool) (n address : Text) (seen : Seen) (b : SocketAddr) (u : Bool)
    (m : Text)
    → addr_eq a b ≡ false
    → fits b u m (after a t n address seen) ≡ (fits b u m seen && apart a t n b u m)
unfolding fits after apart tls_at sni_at
fits-after_other a t n address seen b u m e = elim (Option-cases (tls_at a seen.socket_tls)) [
  | inl unseen ↦ ground arith
  | inr (v, old) ↦ ground arith
]

-- What fits after a site was noted: what fitted before and is apart from it.
pub fits-after :
    (a : SocketAddr) (t : Bool) (n address : Text) (seen : Seen) (b : SocketAddr) (u : Bool)
    (m : Text)
    → fits a t n seen ≡ true
    → fits b u m (after a t n address seen) ≡ (fits b u m seen && apart a t n b u m)
fits-after a t n address seen b u m e = elim (Bool-cases (addr_eq a b)) [
  | inl same ↦
      subst (λ x. fits x u m (after a t n address seen) ≡ (fits x u m seen && apart a t n x u m))
        ((addr_eq_iff a b).0 same) (fits-after_self a t n address seen u m e)
  | inr other ↦ fits-after_other a t n address seen b u m other
]

module _ ⦃c : Codec⦄ where
  abbrev pub site_fits : SocketAddr → SiteConfig → Seen → Bool
  site_fits a site seen = fits a (is_some site.tls) (sni_of site) seen

  abbrev pub site_after : SocketAddr → SiteConfig → Seen → Seen
  site_after a site seen = after a (is_some site.tls) (sni_of site) site.address seen

  check_site_eq :
      (site : SiteConfig) (seen : Seen) (a : SocketAddr)
      → resolve_listen_addr site.address ≡ some a
      → check_site site seen ≡ (
          check_tls a (is_some site.tls) site seen >>= λ next.
          if is_some site.tls then check_sni a (sni_of site) site next else ok next)
  unfolding check_site
  check_site_eq site seen a e = rw (e, check_site)

  -- A site that fits is accepted and noted.
  pub check_site_at :
      (site : SiteConfig) (seen : Seen) (a : SocketAddr)
      → resolve_listen_addr site.address ≡ some a
      → site_fits a site seen ≡ true
      → check_site site seen ≡ ok (site_after a site seen)
  unfolding check_tls check_sni fits after
  check_site_at site seen a e f =
      check_site_eq site seen a e ∙ elim (Option-cases (tls_at a seen.socket_tls)) [
        | inl unseen ↦ ground arith
        | inr (v, old) ↦ ground (arith, xor_eq v (is_some site.tls))
      ]

  -- A site that is accepted has a listen address and fits there.
  pub check_site_ok :
      (site : SiteConfig) (seen next : Seen)
      → check_site site seen ≡ ok next
      → (a : SocketAddr) × (resolve_listen_addr site.address ≡ some a)
        × (site_fits a site seen ≡ true)
  unfolding check_site check_tls check_sni fits
  check_site_ok site seen next h = elim (Option-cases (resolve_listen_addr site.address)) [
    | inl e ↦ cc (rw (e, check_site) at h)
    | inr (a, e) ↦ (
      a,
      e,
      elim (Option-cases (tls_at a seen.socket_tls)) [
        | inl unseen ↦ ground (arith, check_site_eq site seen a e)
        | inr (v, old) ↦ ground (arith, check_site_eq site seen a e, xor_eq v (is_some site.tls))
      ],
    )
  ]
