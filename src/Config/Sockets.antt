-- ===== src/Config/Sockets.antt =====
-- `validate_listen_sockets`, src/config/parser.rs: TLS and plain sites do not share a listen
-- socket, and the SNI names of a socket are distinct. The two hash maps of the source are lists of
-- entries here, as are the sites.
pub mod Steps
pub mod Agreement
pub mod Order
use mathlib.Core.Bool.{xor}
use tiny_proxy.Base.{Bool, ◌&&◌, ◌==◌, Option, none, some, List, [], ◌∷◌, if◌then◌else◌, is_some}
use tiny_proxy.Base.Text.{Text, text_eq, to_ascii_lowercase}
use tiny_proxy.Base.Result.{ok, err, ok_or, ◌>>=◌}
use tiny_proxy.Http.{Codec}
use tiny_proxy.Config.Address.{SocketAddr, resolve_listen_addr, extract_hostname}
use tiny_proxy.Config.Models.{SiteConfig}
use tiny_proxy.Config.Parser.{cannot_parse_address, mixed_tls, duplicate_sni, Parsed}

unfoldable pub addr_eq : SocketAddr → SocketAddr → Bool
addr_eq a b = text_eq a.ip b.ip && a.port == b.port

-- `socket_tls.get`.
unfoldable pub tls_at : SocketAddr → List (SocketAddr × Bool) → Option Bool
tls_at a [] = none
tls_at a ((b, t) ∷ m) = if addr_eq b a then some t else tls_at a m

-- `socket_sni.get(addr)` and then `get(sni)`: the site that has the name.
unfoldable pub sni_at : SocketAddr → Text → List (SocketAddr × Text × Text) → Option Text
sni_at a n [] = none
sni_at a n ((b, k, site) ∷ m) = if addr_eq b a && text_eq k n then some site else sni_at a n m

pub record Seen : Type 0 where
  pub socket_tls : List (SocketAddr × Bool)
  pub socket_sni : List (SocketAddr × Text × Text)

unfoldable pub check_tls : SocketAddr → Bool → SiteConfig → Seen → Parsed Seen
check_tls a t site seen = elim (tls_at a seen.socket_tls) [
  | some prev ↦ if xor prev t then err (mixed_tls site.address) else ok seen
  | none ↦ ok (record seen { socket_tls = (a, t) ∷ seen.socket_tls })
]

unfoldable pub check_sni : SocketAddr → Text → SiteConfig → Seen → Parsed Seen
check_sni a sni site seen = elim (sni_at a sni seen.socket_sni) [
  | some existing ↦ err (duplicate_sni sni existing site.address)
  | none ↦ ok (record seen { socket_sni = (a, sni, site.address) ∷ seen.socket_sni })
]

-- The name that a site's certificate is found by.
abbrev pub sni_of : SiteConfig → Text
sni_of site = to_ascii_lowercase (extract_hostname site.address)

module _ ⦃c : Codec⦄ where
  -- One round of the loop.
  unfoldable pub check_site : SiteConfig → Seen → Parsed Seen
  check_site site seen = do
    a ← ok_or (resolve_listen_addr site.address) (cannot_parse_address site.address)
    next ← check_tls a (is_some site.tls) site seen
    if is_some site.tls then check_sni a (sni_of site) site next else ok next

  unfoldable pub check_sites : List (Text × SiteConfig) → Seen → Parsed Seen
  check_sites [] seen = ok seen
  check_sites ((k, site) ∷ sites) seen = do next ← check_site site seen; check_sites sites next

  unfoldable pub validate_listen_sockets : List (Text × SiteConfig) → Parsed Seen
  validate_listen_sockets sites = check_sites sites (record { socket_tls = []; socket_sni = [] })
