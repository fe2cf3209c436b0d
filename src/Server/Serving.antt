-- ===== src/Server/Serving.antt =====
-- The listener of one group, the second loop of `start_all`.
use mathlib.Core.Path.{subst}
use tiny_proxy.Base.{
  All, All-map, Bool-cases, List, Option, Option-cases, [], all, arith, false, inl, inr, is_some,
  none, refl, some, sym, true, ◌∷◌, ◌≡◌,
}
use tiny_proxy.Base.Result.{ok}
use tiny_proxy.Base.Text.{Text, to_ascii_lowercase}
use tiny_proxy.Base.Text.Eq.{text_eq_iff}
use tiny_proxy.Config.Address.{SocketAddr, extract_hostname, resolve_listen_addr}
use tiny_proxy.Config.Models.{SiteConfig, TlsConfig}
use tiny_proxy.Config.Sockets.{sni_of}
use tiny_proxy.Http.{Codec}
use tiny_proxy.Proxy.Sites.{or_else}
use tiny_proxy.Proxy.Tls.{SniCertResolver, build_resolver, first_by_name, load_sites, resolve}
use tiny_proxy.Proxy.Tls.Certificates.{LastOfName, has_name, here, resolve-own, there}
use tiny_proxy.Server.{Listener, http, https, start_group, start_tls, tls_entries, tls_sites}
use tiny_proxy.Server.Agreeing.{Alike, AllTogether, Together}
use tiny_proxy.Server.Groups.{AllListen}

module _ {K : Type 0} (load : TlsConfig → Option K) where
  -- The key pair of a TLS site can be read.
  abbrev pub Loads : SiteConfig → Type 0
  Loads s = (cfg : TlsConfig) → s.tls ≡ some cfg → (key : K) × (load cfg ≡ some key)

  -- A listener serves a site: without TLS on its socket, or with TLS on its socket and, to a client
  -- that names the site, with the certificate of the site.
  pub data Serves ⦃c : Codec⦄ (s : SiteConfig) : Listener K → Type 0 where
    plainly :
        (a : SocketAddr) → resolve_listen_addr s.address ≡ some a → s.tls ≡ none → Serves s (http a)
    securely :
        (a : SocketAddr) (r : SniCertResolver K) (cfg : TlsConfig) (key : K)
        → resolve_listen_addr s.address ≡ some a
        → s.tls ≡ some cfg
        → load cfg ≡ some key
        → ((sni : Text) → to_ascii_lowercase sni ≡ sni_of s → resolve r (some sni) ≡ some key)
        → Serves s (https a r)

plain_sites :
    (s : SiteConfig) (sites : List SiteConfig)
    → is_some s.tls ≡ false
    → All (Together s) sites
    → (tls_sites sites ≡ []) × All (λ x. x.tls ≡ none) sites
unfolding tls_sites
plain_sites s [] e h = (refl, tt)
plain_sites s (x ∷ sites) e ((p, q), h) =
    let (none_left, rest) = plain_sites s sites e h in (ground arith, (ground arith, rest))

secure_sites :
    (s : SiteConfig) (sites : List SiteConfig)
    → is_some s.tls ≡ true
    → All (Together s) sites
    → (tls_sites sites ≡ sites) × All (λ x. is_some x.tls ≡ true) sites
unfolding tls_sites
secure_sites s [] e h = (refl, tt)
secure_sites s (x ∷ sites) e ((p, q), h) =
    let (whole, rest) = secure_sites s sites e h in (ground arith, (ground arith, rest))

is_some-eq : {A : Type 0} (o : Option A) → is_some o ≡ true → (a : A) × (o ≡ some a)
is_some-eq none e = cc
is_some-eq (some a) e = (a, refl)

-- No site of the list has the name of a site that they stand together with.
other_names :
    (s : SiteConfig) (sites : List SiteConfig)
    → is_some s.tls ≡ true
    → All (Together s) sites
    → has_name (sni_of s) (tls_entries sites) ≡ false
unfolding has_name tls_entries
other_names s [] e h = refl
other_names s (x ∷ sites) e ((p, q), h) =
    let (cfg, f) = is_some-eq x.tls (ground arith) in
    rw f (ground (arith, other_names s sites e h, q e, text_eq_iff (sni_of x) (sni_of s)))

-- A site with TLS is an entry, and the last one of its name.
abbrev pub Entered : List SiteConfig → SiteConfig → Type 0
Entered sites s =
    (cfg : TlsConfig) × (s.tls ≡ some cfg)
    × LastOfName (extract_hostname s.address) cfg (tls_entries sites)

AllTogether-Entered :
    (sites : List SiteConfig)
    → All (λ x. is_some x.tls ≡ true) sites
    → AllTogether sites
    → All (Entered sites) sites
unfolding tls_entries
AllTogether-Entered [] h k = tt
AllTogether-Entered (s ∷ sites) (e, h) (p, k) =
    let (cfg, f) = is_some-eq s.tls e in
    let entries : tls_entries (s ∷ sites) ≡ (extract_hostname s.address, cfg) ∷ tls_entries sites =
      rw (f, tls_entries) in
    (
      (cfg, f, subst (LastOfName _ cfg) (sym entries) (here (other_names s sites e p))),
      All-map
          (λ x (d, g, o).
            (d, g, subst (LastOfName (extract_hostname x.address) d) (sym entries) (there o)))
          sites (AllTogether-Entered sites h k),
    )

module _ {K : Type 0} (load : TlsConfig → Option K) where
  load_sites-some :
      (sites : List SiteConfig) (r : SniCertResolver K)
      → All (Loads load) sites
      → (last : SniCertResolver K) × (load_sites load none (tls_entries sites) r ≡ some last)
  unfolding load_sites tls_entries
  load_sites-some [] r h = (r, refl)
  load_sites-some (s ∷ sites) r (l, h) = elim (Option-cases s.tls) [
    | inl plain ↦ rw plain (load_sites-some sites r h)
    | inr (cfg, secure) ↦
        let (key, good) = l cfg secure in rw (secure, good, load_sites) (load_sites-some sites _ h)
  ]

  build_resolver-some :
      (s : SiteConfig) (sites : List SiteConfig)
      → is_some s.tls ≡ true
      → All (Loads load) (s ∷ sites)
      → (r : SniCertResolver K) × (build_resolver load none (tls_entries (s ∷ sites)) ≡ some r)
  unfolding build_resolver tls_entries load_sites
  build_resolver-some s sites e h =
      let (cfg, secure) = is_some-eq s.tls e in
      let (last, done) = load_sites-some (s ∷ sites) (record { entries = []; default = none }) h in
      let loaded = rw (secure, tls_entries) at done in
      (
        record last { default = or_else last.default (first_by_name last.entries) },
        rw (secure, build_resolver) (rw loaded refl),
      )

  module _ ⦃c : Codec⦄ where
    Serves-plain :
        (a : SocketAddr) (sites : List SiteConfig)
        → AllListen a sites
        → All (λ x. x.tls ≡ none) sites
        → All (λ s. Serves load s (http a)) sites
    Serves-plain a [] h k = tt
    Serves-plain a (s ∷ sites) (e, h) (p, k) = (plainly a e p, Serves-plain a sites h k)

    Serves-secure :
        (a : SocketAddr) (all : List SiteConfig) (r : SniCertResolver K)
        → build_resolver load none (tls_entries all) ≡ some r
        → (sites : List SiteConfig) → AllListen a sites
        → All (Loads load) sites
        → All (Entered all) sites
        → All (λ s. Serves load s (https a r)) sites
    Serves-secure a all r built [] h l k = tt
    Serves-secure a all r built (s ∷ sites) (e, h) (m, l) ((cfg, f, o), k) =
        let (key, good) = m cfg f in
        (
          securely a r cfg key e f good (λ sni same.
              resolve-own load none (tls_entries all) r (extract_hostname s.address) sni cfg key
                built o good same),
          Serves-secure a all r built sites h l k,
        )

    -- A group of sites that are alike starts, and its listener serves each of them.
    pub start_group-Serves :
        (a : SocketAddr) (sites : List SiteConfig)
        → Alike a sites
        → All (Loads load) sites
        → (l : Listener K) × (start_group load true a sites ≡ ok l)
          × All (λ s. Serves load s l) sites
    unfolding start_group start_tls tls_sites
    start_group-Serves a [] h k = (http a, refl, tt)
    start_group-Serves a (s ∷ sites) (at_a, (p, t)) l = elim (Bool-cases (is_some s.tls)) [
      | inl secure ↦
          let (whole, modes) = secure_sites s sites secure p in
          let (r, built) = build_resolver-some s sites secure l in
          (
            https a r,
            ground (arith, whole, built, secure),
            Serves-secure a (s ∷ sites) r built (s ∷ sites) at_a l
                (AllTogether-Entered (s ∷ sites) (secure, modes) (p, t)),
          )
      | inr plain ↦
          let (none_left, modes) = plain_sites s sites plain p in
          (
            http a,
            ground (arith, none_left, plain),
            Serves-plain a (s ∷ sites) at_a (ground arith, modes),
          )
    ]
