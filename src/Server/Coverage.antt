-- ===== src/Server/Coverage.antt =====
-- What `start_all` has started whenever it succeeds, also for a configuration that came without
-- the checks of the parser.
use mathlib.Core.List.{Memᴰ}
use mathlib.Core.List.Memᴰ.{append_left}
use mathlib.Core.Path.{ap₂, subst}
use tiny_proxy.Base.{
  All, All-map, Bool, Bool-cases, List, Option, Option-cases, [], ap, arith, false, inl, inr,
  is_empty, is_some, length, none, not, refl, some, sym, true, ℕ, ◌&&◌, ◌++◌, ◌==◌, ◌∙◌, ◌∷◌, ◌≡◌,
  ◌≤◌, ◌⊎◌,
}
use tiny_proxy.Base.Result.{ok}
use tiny_proxy.Config.Address.{SocketAddr, resolve_listen_addr}
use tiny_proxy.Config.Models.{Config, SiteConfig, TlsConfig}
use tiny_proxy.Config.Sockets.{addr_eq}
use tiny_proxy.Config.Sockets.Steps.{apart}
use tiny_proxy.Http.{Codec}
use tiny_proxy.Proxy.Tls.{SniCertResolver, build_resolver}
use tiny_proxy.Server.{
  Groups, Listener, Started, http, http_redirect, https, redirect_tasks, spawn, start_all,
  start_group, start_groups, start_tls, tls_entries, tls_sites,
}
use tiny_proxy.Server.Groups.{
  AllGroups, AllListen, EachGroup, distinct_groups, group_sites-AllGroups, group_sites-AllListen,
  group_sites-distinct, no_group,
}
use tiny_proxy.Server.Steps.{start_all_steps, start_groups_steps}

unfoldable pub socket_of : {K : Type 0} → Listener K → SocketAddr
socket_of (https a r) = a
socket_of (http a) = a
socket_of (http_redirect a port) = a

unfoldable pub serves_tls : {K : Type 0} → Listener K → Bool
serves_tls (https a r) = true
serves_tls (http a) = false
serves_tls (http_redirect a port) = false

unfoldable pub is_redirect : {K : Type 0} → Listener K → Bool
is_redirect (https a r) = false
is_redirect (http a) = false
is_redirect (http_redirect a port) = true

module _ {K : Type 0} where
  -- A task listens on a socket, with TLS or without, and is no redirect.
  abbrev pub ListensAt : SocketAddr → Bool → Listener K → Type 0
  ListensAt a secure l = (socket_of l ≡ a) × (serves_tls l ≡ secure) × (is_redirect l ≡ false)

  -- Whether none of the tasks listens on a socket, and whether the tasks listen on different ones.
  abbrev pub unused : SocketAddr → List (Listener K) → Bool
  unused a [] = true
  unused a (l ∷ tasks) = not (addr_eq (socket_of l) a) && unused a tasks

  abbrev pub distinct_sockets : List (Listener K) → Bool
  distinct_sockets [] = true
  distinct_sockets (l ∷ tasks) = unused (socket_of l) tasks && distinct_sockets tasks

  -- One of the tasks listens on the socket of a site, with TLS exactly if the site has it.
  abbrev pub Covered : ⦃c : Codec⦄ → List (Listener K) → SiteConfig → Type 0
  Covered tasks s =
      (a : SocketAddr) × (resolve_listen_addr s.address ≡ some a)
      × ((l : Listener K) × Memᴰ l tasks × ListensAt a (is_some s.tls) l)

module _ {K : Type 0} (load : TlsConfig → Option K) (tls_feature : Bool) where
  tls_sites_modes :
      (sites : List SiteConfig)
      → length (tls_sites sites) ≤ length sites
        × ((length (tls_sites sites) == length sites) ≡ true
            → All (λ s. is_some s.tls ≡ true) sites)
        × (is_empty (tls_sites sites) ≡ true → All (λ s. is_some s.tls ≡ false) sites)
  unfolding tls_sites
  tls_sites_modes [] = (omega arith, λ _. tt, λ _. tt)
  tls_sites_modes (s ∷ sites) =
      let (short, rest, none_left) = tls_sites_modes sites in
      elim (Bool-cases (is_some s.tls)) [
        | inl secure ↦
            rw secure (omega (arith, short), λ e. (refl, rest (ground arith)), λ e. ground arith)
        | inr plain ↦
            rw plain (omega (arith, short), λ e. ground (arith, short), λ e. (refl, none_left e))
      ]

  pub start_tls_shape :
      (a : SocketAddr) (sites : List SiteConfig) (l : Listener K)
      → start_tls load tls_feature a sites ≡ ok l
      → (r : SniCertResolver K) × (l ≡ https a r)
  unfolding start_tls
  start_tls_shape a sites l e = elim (Option-cases (build_resolver load none (tls_entries sites))) [
    | inl bad ↦ ground (arith, bad)
    | inr (r, built) ↦ (r, ground (arith, built))
  ]

  -- A group gets a listener without TLS if no site of it has TLS, and one with TLS if all have.
  pub start_group_shape :
      (a : SocketAddr) (sites : List SiteConfig) (l : Listener K)
      → start_group load tls_feature a sites ≡ ok l
      → ((l ≡ http a) × (is_empty (tls_sites sites) ≡ true))
        ⊎ ((r : SniCertResolver K) × (l ≡ https a r)
            × ((length (tls_sites sites) == length sites) ≡ true))
  unfolding start_group
  start_group_shape a sites l e = elim (Bool-cases (is_empty (tls_sites sites))) [
    | inl bare ↦ inl (ground (arith, bare), bare)
    | inr some_secure ↦
        let (r, same) = start_tls_shape a (tls_sites sites) l (ground arith) in
        inr (r, same, ground arith)
  ]

  -- The listener of a group listens on its socket, and has TLS just as each site of the group.
  pub start_group-ListensAt :
      (a : SocketAddr) (sites : List SiteConfig) (l : Listener K)
      → start_group load tls_feature a sites ≡ ok l
      → ListensAt a (serves_tls l) l × All (λ s. is_some s.tls ≡ serves_tls l) sites
  unfolding socket_of serves_tls is_redirect
  start_group-ListensAt a sites l e =
      let (_, secure, plain) = tls_sites_modes sites in
      elim (start_group_shape a sites l e) [
        | inl (same, bare) ↦ rw same ((refl, refl, refl), plain bare)
        | inr (r, same, even) ↦ rw same ((refl, refl, refl), secure even)
      ]

  handles-spawn :
      (l : Listener K) (started : Started K) → (spawn l started).handles ≡ l ∷ started.handles
  unfolding spawn
  handles-spawn (https a r) started = refl
  handles-spawn (http a) started = refl
  handles-spawn (http_redirect a port) started = refl

  module _ ⦃c : Codec⦄ where
    -- The tasks for some groups.
    Grouped : Groups → List (Listener K) → Type 0
    Grouped groups tasks =
        AllGroups (Covered tasks) groups
        × ((a : SocketAddr) → no_group a groups ≡ unused a tasks)
        × (distinct_groups groups ≡ distinct_sockets tasks)

    Covered-here :
        (a : SocketAddr) (l : Listener K) (tasks : List (Listener K)) (sites : List SiteConfig)
        → ListensAt a (serves_tls l) l
        → AllListen a sites
        → All (λ s. is_some s.tls ≡ serves_tls l) sites
        → All (Covered (l ∷ tasks)) sites
    Covered-here a l tasks [] h k m = tt
    Covered-here a l tasks (s ∷ sites) (at_socket, mode, real) (e, k) (same, m) = (
      (a, e, (l, Memᴰ.head refl, (at_socket, mode ∙ sym same, real))),
      Covered-here a l tasks sites (at_socket, mode, real) k m,
    )

    Grouped-cons :
        (a : SocketAddr) (sites : List SiteConfig) (groups : Groups) (l : Listener K)
        (tasks : List (Listener K))
        → start_group load tls_feature a sites ≡ ok l
        → AllListen a sites
        → Grouped groups tasks
        → Grouped ((a, sites) ∷ groups) (l ∷ tasks)
    unfolding Grouped no_group distinct_groups
    Grouped-cons a sites groups l tasks up at_a (covered, free, apart) =
        let (listens, modes) = start_group-ListensAt a sites l up in
        let own_socket = listens.0 in
        (
          (
            Covered-here a l tasks sites listens at_a modes,
            All-map (λ g. All-map (λ s (b, e, (k, m, h)). (b, e, (k, Memᴰ.tail m, h))) g.1) groups
                covered,
          ),
          λ b. rw own_socket (ap (λ x. not (addr_eq a b) && x) (free b)),
          rw own_socket (ap₂ ◌&&◌ (free a) apart),
        )

    start_groups-Grouped :
        (groups : Groups) (started : Started K)
        → start_groups load tls_feature groups ≡ ok started
        → EachGroup AllListen groups
        → Grouped groups started.handles
    unfolding start_groups Grouped no_group distinct_groups
    start_groups-Grouped [] started e h =
        let same : record { handles = []; tls_redirects = [] } ≡ started = cc e in
        subst (λ (x : Started K). Grouped [] x.handles) same (tt, λ a. refl, refl)
    start_groups-Grouped ((a, sites) ∷ groups) started e (at_a, h) =
        let (l, rest, up, rest_up, same) =
          start_groups_steps load tls_feature a sites groups started e in
        subst (λ (x : Started K). Grouped ((a, sites) ∷ groups) x.handles) same
          (subst (Grouped ((a, sites) ∷ groups)) (sym (handles-spawn l rest)) (
            Grouped-cons a sites groups l rest.handles up at_a
              (start_groups-Grouped groups rest rest_up h)))

    -- Whenever `start_all` succeeds, each site of the configuration has one of the listeners, on
    -- the socket of the site, with TLS exactly if the site has it; and no two of the listeners,
    -- redirects aside, have the same socket.
    pub start_all-Covers :
        (config : Config) (tasks : List (Listener K))
        → start_all load tls_feature config ≡ ok tasks
        → All (λ e. Covered tasks e.1) config.sites
          × ((listeners : List (Listener K)) × (redirects : List (SocketAddr × ℕ)) × (tasks
                ≡ listeners ++ redirect_tasks redirects)
              × (distinct_sockets listeners ≡ true))
    unfolding start_all Grouped distinct_groups
    start_all-Covers config tasks e =
        let (groups, started, grouped, up, same) =
          start_all_steps load tls_feature config tasks e in
        let (covered, free, apart) =
          start_groups-Grouped groups started up
            (group_sites-AllListen config.sites [] groups grouped tt) in
        let (own, _) =
          (group_sites-AllGroups (Covered started.handles) config.sites [] groups grouped).0
            covered in
        (
          All-map (λ s (b, e, (k, m, h)). (b, e, (k, subst (Memᴰ k) same (append_left _ m), h)))
              config.sites own,
          (
            started.handles,
            started.tls_redirects,
            sym same,
            sym apart ∙ group_sites-distinct config.sites [] groups grouped refl,
          ),
        )
