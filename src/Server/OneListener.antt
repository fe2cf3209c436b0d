-- ===== src/Server/OneListener.antt =====
-- The single listener of `start` and `start_with_addr`.
use mathlib.Core.List.{Memᴰ}
use mathlib.Core.List.Memᴰ.{cases_cons, not-nil}
use mathlib.Core.Path.{subst}
use tiny_proxy.Base.{
  Bool, Bool-cases, List, Option, Option-cases, [], any, ap, arith, false, inl, inr, is_empty,
  is_some, none, not, refl, some, sym, true, ◌&&◌, ◌∙◌, ◌∷◌, ◌≡◌,
}
use tiny_proxy.Base.Result.{ok}
use tiny_proxy.Base.Text.{Text, codes, parse_uint, text_eq}
use tiny_proxy.Config.Address.{SocketAddr, last_part, resolve_listen_addr, u16_bound}
use tiny_proxy.Config.Models.{Config, SiteConfig, TlsConfig}
use tiny_proxy.Http.{Codec}
use tiny_proxy.Server.{
  Listener, before_port, host_matches, http, matching_tls, site_addr_matches, start_with_addr,
}
use tiny_proxy.Server.Coverage.{serves_tls, socket_of, start_tls_shape}

any-Memᴰ :
    {A : Type 0} (p : A → Bool) (x : A) (xs : List A) → Memᴰ x xs → p x ≡ true → any p xs ≡ true
any-Memᴰ p x [] m e = absurd (not-nil m)
any-Memᴰ p x (y ∷ xs) m e = elim (cases_cons m) [
  | inl same ↦ ground (arith, ap p same, e)
  | inr t ↦ ground (arith, any-Memᴰ p x xs t e)
]

module _ ⦃c : Codec⦄ where
  -- An address that names a host, neither `localhost` nor an IP address, matches every socket at
  -- its port.
  site_addr_matches_named :
      (address : Text) (a : SocketAddr)
      → c.socket_addr_from_str address ≡ none
      → resolve_listen_addr address ≡ some a
      → text_eq (before_port address) (codes "localhost") ≡ false
      → c.ip_addr_from_str (before_port address) ≡ none
      → site_addr_matches address a ≡ true
  unfolding site_addr_matches host_matches resolve_listen_addr
  site_addr_matches_named address a unparsed resolved named no_ip =
      elim (Option-cases (parse_uint u16_bound (last_part address))) [
        | inl bad ↦ cc (rw (unparsed, bad, resolve_listen_addr) at resolved)
        | inr (port, good) ↦
            let same : record { ip = codes "0.0.0.0"; port = port } ≡ a =
              cc (rw (unparsed, good, resolve_listen_addr) at resolved) in
            let here = ap (λ (x : SocketAddr). x.port) same in
            rw (good, site_addr_matches) (ground (arith, here, named, no_ip))
      ]

module _ {K : Type 0} (load : TlsConfig → Option K) (tls_feature : Bool) ⦃c : Codec⦄ where
  -- A site that has TLS and that `start_with_addr` finds for its address.
  abbrev pub is_found : SocketAddr → Text × SiteConfig → Bool
  is_found a e = site_addr_matches e.1.address a && is_some e.1.tls

  matching_tls-any :
      (a : SocketAddr) (sites : List (Text × SiteConfig))
      → not (is_empty (matching_tls a sites)) ≡ any (is_found a) sites
  unfolding matching_tls
  matching_tls-any a [] = refl
  matching_tls-any a ((k, s) ∷ sites) = ground (arith, matching_tls-any a sites)

  -- `start_with_addr` listens on its address, with TLS exactly if some site with TLS matches the
  -- address.
  pub start_with_addr_tls :
      (config : Config) (a : SocketAddr) (l : Listener K)
      → start_with_addr load tls_feature config a ≡ ok l
      → (socket_of l ≡ a) × (serves_tls l ≡ any (is_found a) config.sites)
  unfolding start_with_addr socket_of serves_tls
  start_with_addr_tls config a l e =
      let found = matching_tls-any a config.sites in
      elim (Bool-cases (is_empty (matching_tls a config.sites))) [
        | inl nobody ↦
            let same : http a ≡ l = cc (rw (nobody, start_with_addr) at e) in
            subst (λ x. (socket_of x ≡ a) × (serves_tls x ≡ any (is_found a) config.sites)) same
              (refl, ground (arith, found, nobody))
        | inr somebody ↦
            let (r, same) =
              start_tls_shape load tls_feature a (matching_tls a config.sites) l
                (rw (somebody, start_with_addr) at e) in
            subst (λ x. (socket_of x ≡ a) × (serves_tls x ≡ any (is_found a) config.sites))
              (sym same) (refl, ground (arith, found, somebody))
      ]

  -- The address that `start_all` listens on for a site matches the site, if the host of the site is
  -- neither `localhost` nor an IP address: a TLS site never gets a listener without TLS from
  -- `start_with_addr` there.
  pub start_with_addr-named :
      (config : Config) (a : SocketAddr) (l : Listener K) (k : Text) (s : SiteConfig)
      → Memᴰ (k, s) config.sites
      → is_some s.tls ≡ true
      → c.socket_addr_from_str s.address ≡ none
      → resolve_listen_addr s.address ≡ some a
      → text_eq (before_port s.address) (codes "localhost") ≡ false
      → c.ip_addr_from_str (before_port s.address) ≡ none
      → start_with_addr load tls_feature config a ≡ ok l
      → (socket_of l ≡ a) × (serves_tls l ≡ true)
  start_with_addr-named config a l k s m secure unparsed resolved named no_ip e =
      let (at_a, tls) = start_with_addr_tls config a l e in
      let matched = site_addr_matches_named s.address a unparsed resolved named no_ip in
      let one : is_found a (k, s) ≡ true = ground (arith, matched, secure) in
      (at_a, tls ∙ any-Memᴰ (is_found a) (k, s) config.sites m one)
