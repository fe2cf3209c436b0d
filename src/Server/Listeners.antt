-- ===== src/Server/Listeners.antt =====
-- The tasks of `start_all` for a whole configuration.
use mathlib.Core.List.{Memᴰ}
use mathlib.Core.List.Memᴰ.{append_left}
use mathlib.Core.Path.{subst}
use tiny_proxy.Base.{All, All-map, List, Option, [], refl, true, ◌++◌, ◌∷◌, ◌≡◌}
use tiny_proxy.Base.Result.{ok}
use tiny_proxy.Base.Text.{Text}
use tiny_proxy.Config.Models.{Config, SiteConfig, TlsConfig}
use tiny_proxy.Config.Parser.Lines.{from_str}
use tiny_proxy.Config.Parser.Outcome.{Valid, from_str-Valid}
use tiny_proxy.Config.Sockets.Agreement.{AllAgree}
use tiny_proxy.Http.{Codec}
use tiny_proxy.Server.{
  Groups, Listener, Started, http, http_redirect, https, redirect_tasks, spawn, start_all,
  start_groups,
}
use tiny_proxy.Server.Agreeing.{Alike, group_sites-Alike}
use tiny_proxy.Server.Groups.{AllGroups, EachGroup, group_sites-AllGroups}
use tiny_proxy.Server.Serving.{Loads, Serves, start_group-Serves}

module _ {K : Type 0} (load : TlsConfig → Option K) ⦃c : Codec⦄ where
  -- One of the tasks serves a site.
  abbrev pub HasListener : List (Listener K) → SiteConfig → Type 0
  HasListener tasks s = (l : Listener K) × Memᴰ l tasks × Serves load s l

  HasListener-spawn :
      (l : Listener K) (started : Started K) (s : SiteConfig)
      → HasListener started.handles s
      → HasListener (spawn l started).handles s
  unfolding spawn
  HasListener-spawn (https a r) started s (l, m, h) = (l, Memᴰ.tail m, h)
  HasListener-spawn (http a) started s (l, m, h) = (l, Memᴰ.tail m, h)
  HasListener-spawn (http_redirect a p) started s (l, m, h) = (l, Memᴰ.tail m, h)

  Memᴰ-spawn : (l : Listener K) (started : Started K) → Memᴰ l (spawn l started).handles
  unfolding spawn
  Memᴰ-spawn (https a r) started = Memᴰ.head refl
  Memᴰ-spawn (http a) started = Memᴰ.head refl
  Memᴰ-spawn (http_redirect a p) started = Memᴰ.head refl

  start_groups-HasListener :
      (groups : Groups)
      → EachGroup Alike groups
      → AllGroups (Loads load) groups
      → (started : Started K) × (start_groups load true groups ≡ ok started)
        × AllGroups (HasListener started.handles) groups
  unfolding start_groups
  start_groups-HasListener [] h k = (record { handles = []; tls_redirects = [] }, refl, tt)
  start_groups-HasListener ((a, sites) ∷ groups) (h, hs) (k, ks) =
      let (l, up, serves) = start_group-Serves load a sites h k in
      let (started, rest_up, in_groups) = start_groups-HasListener groups hs ks in
      (
        spawn l started,
        rw (up, rest_up) refl,
        (
          All-map (λ s served_here. (l, Memᴰ-spawn l started, served_here)) sites serves,
          All-map (λ g. All-map (HasListener-spawn l started) g.1) groups in_groups,
        ),
      )

  -- Sites that agree, and whose key pairs can be read, all come up: `start_all` succeeds, and each
  -- site is served by one of its tasks, on the site's socket, with TLS exactly if the site has it,
  -- and then a client that names the site, however capitalised, gets the site's own certificate.
  pub start_all-HasListener :
      (config : Config)
      → AllAgree config.sites
      → All (λ e. Loads load e.1) config.sites
      → (tasks : List (Listener K)) × (start_all load true config ≡ ok tasks)
        × All (λ e. HasListener tasks e.1) config.sites
  unfolding start_all
  start_all-HasListener config agree keys =
      let (groups, grouped, alike) = group_sites-Alike config.sites [] agree tt tt in
      let loads =
        (group_sites-AllGroups (Loads load) config.sites [] groups grouped).1 (keys, tt) in
      let (started, up, in_groups) = start_groups-HasListener groups alike loads in
      let (own, _) =
        (group_sites-AllGroups (HasListener started.handles) config.sites [] groups grouped).0
          in_groups in
      (
        started.handles ++ redirect_tasks started.tls_redirects,
        rw (grouped, up, start_all) refl,
        All-map (λ e (l, m, h). (l, append_left _ m, h)) config.sites own,
      )

  -- A configuration file that is read, and whose key pairs can be read, comes up: `start_all`
  -- succeeds, and each site of the file is served by one of its tasks, on the site's socket, with
  -- TLS exactly if the site has it, and then a client that names the site, however capitalised, gets
  -- the site's own certificate.
  pub from_str-HasListener :
      (content : Text) (config : Config)
      → from_str content ≡ ok config
      → All (λ e. Loads load e.1) config.sites
      → (tasks : List (Listener K)) × (start_all load true config ≡ ok tasks)
        × All (λ e. HasListener tasks e.1) config.sites
  from_str-HasListener content config e keys =
      let (_, agree) = subst Valid e (from_str-Valid content) in
      start_all-HasListener config agree keys
