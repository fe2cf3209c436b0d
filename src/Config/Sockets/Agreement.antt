-- ===== src/Config/Sockets/Agreement.antt =====
-- Which sites may stand in one configuration.
use tiny_proxy.Base.{
  All, Bool, Bool-cases, List, [], and_parts, ap, arith, false, inl, inr, is_some, refl, some, sym,
  true, ◌↔◌, ◌∙◌, ◌∷◌, ◌≡◌, ◌≢◌,
}
use tiny_proxy.Base.Result.{ok, ok_steps}
use tiny_proxy.Base.Text.{Text, text_eq}
use tiny_proxy.Base.Text.Eq.{text_eq_iff}
use tiny_proxy.Config.Address.{SocketAddr, resolve_listen_addr}
use tiny_proxy.Config.Models.{SiteConfig}
use tiny_proxy.Config.Sockets.{
  Seen, addr_eq, check_site, check_sites, sni_at, sni_of, tls_at, validate_listen_sockets,
}
use tiny_proxy.Config.Sockets.Steps.{
  addr_eq_iff, apart, check_site_at, check_site_ok, fits, fits-after, site_after, site_fits, xor_eq,
}
use tiny_proxy.Http.{Codec}

module _ ⦃c : Codec⦄ where
  -- Two sites agree if they listen on different sockets, or on one socket either both without TLS
  -- or both with TLS and different names.
  pub data Agree (s t : SiteConfig) : Type 0 where
    other_socket :
        (a b : SocketAddr)
        → resolve_listen_addr s.address ≡ some a
        → resolve_listen_addr t.address ≡ some b
        → a ≢ b
        → Agree s t
    both_plain :
        (a : SocketAddr)
        → resolve_listen_addr s.address ≡ some a
        → resolve_listen_addr t.address ≡ some a
        → is_some s.tls ≡ false
        → is_some t.tls ≡ false
        → Agree s t
    other_name :
        (a : SocketAddr)
        → resolve_listen_addr s.address ≡ some a
        → resolve_listen_addr t.address ≡ some a
        → is_some s.tls ≡ true
        → is_some t.tls ≡ true
        → sni_of s ≢ sni_of t
        → Agree s t

  -- Each site has a listen address, and any two of them agree.
  abbrev pub AllAgree : List (Text × SiteConfig) → Type 0
  AllAgree [] = Unit
  AllAgree ((k, s) ∷ sites) =
      ((a : SocketAddr) × (resolve_listen_addr s.address ≡ some a))
      × All (λ e. Agree s e.1) sites
      × AllAgree sites

  site_apart : SocketAddr → SiteConfig → SocketAddr → SiteConfig → Bool
  site_apart a s b t = apart a (is_some s.tls) (sni_of s) b (is_some t.tls) (sni_of t)

  apart-Agree :
      (s t : SiteConfig) (a b : SocketAddr)
      → resolve_listen_addr s.address ≡ some a
      → resolve_listen_addr t.address ≡ some b
      → site_apart a s b t ≡ true
      → Agree s t
  unfolding site_apart apart
  apart-Agree s t a b e f h = elim (Bool-cases (addr_eq a b)) [
    | inr other ↦ other_socket a b e f (λ same. cc (other, (addr_eq_iff a b).1 same))
    | inl same ↦
        let one = (addr_eq_iff a b).0 same in
        elim (Bool-cases (is_some s.tls)) [
          | inr plain ↦
              both_plain a e (f ∙ ap some (sym one)) plain
                (ground (arith, xor_eq (is_some s.tls) (is_some t.tls)))
          | inl secure ↦
              other_name a e (f ∙ ap some (sym one)) secure
                (ground (arith, xor_eq (is_some s.tls) (is_some t.tls)))
                (λ names. ground (arith, (text_eq_iff (sni_of s) (sni_of t)).1 names))
        ]
  ]

  Agree-apart :
      (s t : SiteConfig) (a b : SocketAddr)
      → resolve_listen_addr s.address ≡ some a
      → resolve_listen_addr t.address ≡ some b
      → Agree s t
      → site_apart a s b t ≡ true
  unfolding site_apart apart
  Agree-apart s t a b e f (other_socket a' b' e' f' ne) = elim (Bool-cases (addr_eq a b)) [
    | inr other ↦ ground arith
    | inl same ↦ absurd (ne (cc (e, f, e', f', (addr_eq_iff a b).0 same)))
  ]
  Agree-apart s t a b e f (both_plain a' e' f' p q) =
      ground (arith, xor_eq (is_some s.tls) (is_some t.tls))
  Agree-apart s t a b e f (other_name a' e' f' p q ne) =
      elim (Bool-cases (text_eq (sni_of s) (sni_of t))) [
        | inl same ↦ absurd (ne ((text_eq_iff (sni_of s) (sni_of t)).0 same))
        | inr other ↦ ground (arith, xor_eq (is_some s.tls) (is_some t.tls))
      ]

  -- A site fits to the sites seen.
  Fit : Seen → SiteConfig → Type 0
  Fit seen t =
      (b : SocketAddr) × (resolve_listen_addr t.address ≡ some b) × (site_fits b t seen ≡ true)

  Fit-after :
      (s : SiteConfig) (a : SocketAddr) (seen : Seen) (t : SiteConfig)
      → resolve_listen_addr s.address ≡ some a
      → site_fits a s seen ≡ true
      → Fit (site_after a s seen) t ↔ (Fit seen t × Agree s t)
  unfolding Fit site_apart
  Fit-after s a seen t e f =
      let step = λ (b : SocketAddr).
        fits-after a (is_some s.tls) (sni_of s) s.address seen b (is_some t.tls) (sni_of t) f in
      (
        λ (b, g, h).
            let (fitting, away) =
              and_parts (site_fits b t seen) (site_apart a s b t) (sym (step b) ∙ h) in
            ((b, g, fitting), apart-Agree s t a b e g away),
        λ ((b, g, fitting), agree). (b, g, step b ∙ ground (arith, Agree-apart s t a b e g agree)),
      )

  AllFit : Seen → List (Text × SiteConfig) → Type 0
  AllFit seen sites = All (λ e. Fit seen e.1) sites

  AllFit-after :
      (s : SiteConfig) (a : SocketAddr) (seen : Seen) (sites : List (Text × SiteConfig))
      → resolve_listen_addr s.address ≡ some a
      → site_fits a s seen ≡ true
      → AllFit (site_after a s seen) sites ↔ (AllFit seen sites × All (λ e. Agree s e.1) sites)
  unfolding AllFit
  AllFit-after s a seen [] e f = (λ _. (tt, tt), λ _. tt)
  AllFit-after s a seen ((k, t) ∷ sites) e f =
      let one = Fit-after s a seen t e f in
      let rest = AllFit-after s a seen sites e f in
      (
        λ (p, q). let (p₁, p₂) = one.0 p in let (q₁, q₂) = rest.0 q in ((p₁, q₁), (p₂, q₂)),
        λ ((p₁, q₁), (p₂, q₂)). (one.1 (p₁, p₂), rest.1 (q₁, q₂)),
      )

  check_sites_sound :
      (sites : List (Text × SiteConfig)) (seen last : Seen)
      → check_sites sites seen ≡ ok last
      → AllFit seen sites × AllAgree sites
  unfolding check_sites AllFit Fit
  check_sites_sound [] seen last h = (tt, tt)
  check_sites_sound ((k, s) ∷ sites) seen last h =
      let (next, more, accepted) =
        ok_steps (λ next. check_sites sites next) (check_site s seen) last h in
      let (a, e, f) = check_site_ok s seen next accepted in
      let same : site_after a s seen ≡ next = cc (accepted, check_site_at s seen a e f) in
      let (fitting, agree) =
        check_sites_sound sites (site_after a s seen) last
          (ap (λ n. check_sites sites n) same ∙ more) in
      let (fit, away) = (AllFit-after s a seen sites e f).0 fitting in
      (((a, e, f), fit), ((a, e), away, agree))

  check_sites_complete :
      (sites : List (Text × SiteConfig)) (seen : Seen)
      → AllFit seen sites
      → AllAgree sites
      → (last : Seen) × (check_sites sites seen ≡ ok last)
  unfolding check_sites AllFit Fit
  check_sites_complete [] seen fit agree = (seen, refl)
  check_sites_complete ((k, s) ∷ sites) seen ((a, e, f), fit) (_, away, agree) =
      let (last, done) =
        check_sites_complete sites (site_after a s seen)
          ((AllFit-after s a seen sites e f).1 (fit, away)) agree in
      (last, rw (check_site_at s seen a e f) done)

  AllFit-fresh :
      (sites : List (Text × SiteConfig))
      → AllAgree sites
      → AllFit (record { socket_tls = []; socket_sni = [] }) sites
  unfolding AllFit Fit fits tls_at sni_at
  AllFit-fresh [] _ = tt
  AllFit-fresh ((k, s) ∷ sites) ((a, e), _, agree) =
      ((a, e, ground arith), AllFit-fresh sites agree)

  -- The sites of a file are accepted exactly when each has a listen address and any two of them
  -- agree: they listen on different sockets, or on one socket either both without TLS or both with
  -- TLS and different host names.
  pub validate_listen_sockets_iff :
      (sites : List (Text × SiteConfig))
      → ((last : Seen) × (validate_listen_sockets sites ≡ ok last)) ↔ AllAgree sites
  unfolding validate_listen_sockets
  validate_listen_sockets_iff sites = (
    λ (last, h). (check_sites_sound sites _ last h).1,
    λ agree. check_sites_complete sites _ (AllFit-fresh sites agree) agree,
  )
