-- ===== src/Server.antt =====
-- The listeners of the proxy, src/proxy/proxy.rs: which are started for a configuration. The maps
-- and the set of the source are lists, whose order is that of the rounds. Reading a key pair
-- is the parameter `load`, the build feature `tls` is `tls_feature`.
pub mod Groups
pub mod Agreeing
pub mod Serving
pub mod OneListener
pub mod Examples
pub mod Snapshots
pub mod Moves
pub mod Limits
pub mod Tasks
pub mod Connections
pub mod Steps
pub mod Redirects
pub mod Coverage
pub mod Listeners
use tiny_proxy.Base.{
  Bool, List, Option, [], false, if◌then◌else◌, is_empty, is_some, length, none, not, some, true, ℕ,
  ◌&&◌, ◌++◌, ◌==◌, ◌||◌, ◌∷◌,
}
use tiny_proxy.Base.Result.{Result, err, ok, ok_or, ◌>>=◌}
use tiny_proxy.Base.Text.{Text, codes, parse_uint, rsplit_once, text_eq}
use tiny_proxy.Config.Address.{
  SocketAddr, extract_hostname, last_part, resolve_listen_addr, tls_redirect_port, u16_bound,
}
use tiny_proxy.Config.Models.{Config, SiteConfig, TlsConfig}
use tiny_proxy.Config.Sockets.{addr_eq}
use tiny_proxy.Http.{Codec}
use tiny_proxy.Proxy.Tls.{SniCertResolver, build_resolver}

-- What stands before the last colon.
abbrev pub before_port : Text → Text
before_port s = elim (rsplit_once b':' s) [ none ↦ [] | some (a, b) ↦ a ]

module _ ⦃c : Codec⦄ where
  -- Whether the address that listens is the one that the host of a site names.
  unfoldable pub host_matches : Text → Text → Bool
  host_matches host ip =
      if is_empty host || text_eq host (codes "0.0.0.0") || text_eq host (codes "::")
      then true
      else if text_eq host (codes "localhost")
      then text_eq (codes "127.0.0.1") ip
      else elim (c.ip_addr_from_str host) [ none ↦ true | some site_ip ↦ text_eq site_ip ip ]

  unfoldable pub site_addr_matches : Text → SocketAddr → Bool
  site_addr_matches site_address listen_addr =
      elim (parse_uint u16_bound (last_part site_address)) [
        | none ↦ false
        | some site_port ↦
            site_port == listen_addr.port && host_matches (before_port site_address) listen_addr.ip
      ]

-- The names of TLS sites with their key pairs.
unfoldable pub tls_entries : List SiteConfig → List (Text × TlsConfig)
tls_entries [] = []
tls_entries (s ∷ sites) = elim s.tls [
  | none ↦ tls_entries sites
  | some tls ↦ (extract_hostname s.address, tls) ∷ tls_entries sites
]

unfoldable pub tls_sites : List SiteConfig → List SiteConfig
tls_sites [] = []
tls_sites (s ∷ sites) = if is_some s.tls then s ∷ tls_sites sites else tls_sites sites

-- A task that `start_all` or `start` runs.
pub data Listener (K : Type 0) : Type 0 where
  https : SocketAddr → SniCertResolver K → Listener K
  http : SocketAddr → Listener K
  http_redirect : SocketAddr → ℕ → Listener K

pub data StartError : Type 0 where
  unresolved : Text → StartError
  mixed_sites : SocketAddr → StartError
  no_keys : SocketAddr → StartError
  tls_disabled : SocketAddr → StartError

-- `socket_groups`.
abbrev pub Groups : Type 0
Groups = List (SocketAddr × List SiteConfig)

-- `entry(addr).or_default().push(site)`.
unfoldable pub push_site : SocketAddr → SiteConfig → Groups → Groups
push_site a s [] = (a, s ∷ []) ∷ []
push_site a s ((b, sites) ∷ groups) =
    if addr_eq b a then (b, sites ++ s ∷ []) ∷ groups else (b, sites) ∷ push_site a s groups

-- The variables of the second loop of `start_all`.
pub record Started (K : Type 0) : Type 0 where
  pub handles : List (Listener K)
  pub tls_redirects : List (SocketAddr × ℕ)

-- `HashSet::insert`.
unfoldable pub insert_redirect : SocketAddr × ℕ → List (SocketAddr × ℕ) → List (SocketAddr × ℕ)
insert_redirect r [] = r ∷ []
insert_redirect r (p ∷ more) =
    if addr_eq p.0 r.0 && p.1 == r.1 then p ∷ more else p ∷ insert_redirect r more

unfoldable pub redirect_of_port : SocketAddr → SocketAddr × ℕ
redirect_of_port a = (record { ip = a.ip; port = tls_redirect_port a.port }, a.port)

-- A listener is spawned; an HTTPS listener asks for a redirect.
unfoldable pub spawn : {K : Type 0} → Listener K → Started K → Started K
spawn (https a r) s = record {
  handles = https a r ∷ s.handles;
  tls_redirects = insert_redirect (redirect_of_port a) s.tls_redirects;
}
spawn l s = record s { handles = l ∷ s.handles }

unfoldable pub redirect_tasks : {K : Type 0} → List (SocketAddr × ℕ) → List (Listener K)
redirect_tasks [] = []
redirect_tasks ((a, port) ∷ more) = http_redirect a port ∷ redirect_tasks more

module _ ⦃c : Codec⦄ where
  unfoldable pub group_sites : List (Text × SiteConfig) → Groups → Result StartError Groups
  group_sites [] groups = ok groups
  group_sites ((k, s) ∷ sites) groups = do
    a ← ok_or (resolve_listen_addr s.address) (unresolved s.address)
    group_sites sites (push_site a s groups)

  -- The TLS sites that `start_with_addr` finds for its address.
  unfoldable pub matching_tls : SocketAddr → List (Text × SiteConfig) → List SiteConfig
  matching_tls addr [] = []
  matching_tls addr ((k, s) ∷ sites) =
      if site_addr_matches s.address addr && is_some s.tls
      then s ∷ matching_tls addr sites
      else matching_tls addr sites

module _ {K : Type 0} (load : TlsConfig → Option K) (tls_feature : Bool) where
  unfoldable pub start_tls : SocketAddr → List SiteConfig → Result StartError (Listener K)
  start_tls a sites =
      if tls_feature
      then elim (build_resolver load none (tls_entries sites)) [
        | none ↦ err (no_keys a)
        | some r ↦ ok (https a r)
      ]
      else err (tls_disabled a)

  -- One round of the second loop.
  unfoldable pub start_group : SocketAddr → List SiteConfig → Result StartError (Listener K)
  start_group a sites =
      let secure = tls_sites sites in
      let has_tls = not (is_empty secure) in
      let has_plain = not (length secure == length sites) in
      if has_tls && has_plain
      then err (mixed_sites a)
      else if has_tls
      then start_tls a secure
      else ok (http a)

  unfoldable pub start_groups : Groups → Result StartError (Started K)
  start_groups [] = ok (record { handles = []; tls_redirects = [] })
  start_groups ((a, sites) ∷ groups) = do
    l ← start_group a sites
    started ← start_groups groups
    ok (spawn l started)

  -- `start_all`: the tasks that it waits for.
  unfoldable pub start_all : ⦃c : Codec⦄ → Config → Result StartError (List (Listener K))
  start_all config = do
    groups ← group_sites config.sites []
    started ← start_groups groups
    ok (started.handles ++ redirect_tasks started.tls_redirects)

  unfoldable pub start_with_addr :
      ⦃c : Codec⦄ → Config → SocketAddr → Result StartError (Listener K)
  start_with_addr config addr =
      let found = matching_tls addr config.sites in
      if is_empty found then ok (http addr) else start_tls addr found
