-- ===== src/Server/Steps.antt =====
-- The steps of a run of `start_all` that succeeds.
use tiny_proxy.Base.{Bool, List, Option, [], ◌++◌, ◌∷◌, ◌≡◌}
use tiny_proxy.Base.Result.{ok, ok_steps, ◌>>=◌}
use tiny_proxy.Config.Address.{SocketAddr}
use tiny_proxy.Config.Models.{Config, SiteConfig, TlsConfig}
use tiny_proxy.Http.{Codec}
use tiny_proxy.Server.{
  Groups, Listener, Started, group_sites, redirect_tasks, spawn, start_all, start_group,
  start_groups,
}

module _ {K : Type 0} (load : TlsConfig → Option K) (tls_feature : Bool) where
  -- The second loop, at a group in front.
  pub start_groups_steps :
      (a : SocketAddr) (sites : List SiteConfig) (groups : Groups) (started : Started K)
      → start_groups load tls_feature ((a, sites) ∷ groups) ≡ ok started
      → (l : Listener K) × (rest : Started K) × (start_group load tls_feature a sites ≡ ok l)
        × (start_groups load tls_feature groups ≡ ok rest)
        × (spawn l rest ≡ started)
  unfolding start_groups
  start_groups_steps a sites groups started e =
      let (l, more, up) =
        ok_steps (λ l. start_groups load tls_feature groups >>= λ s. ok (spawn l s))
          (start_group load tls_feature a sites) started e in
      let (rest, last, rest_up) =
        ok_steps (λ s. ok (spawn l s)) (start_groups load tls_feature groups) started more in
      (l, rest, up, rest_up, cc last)

  -- Both loops.
  pub start_all_steps :
      ⦃c : Codec⦄ (config : Config) (tasks : List (Listener K))
      → start_all load tls_feature config ≡ ok tasks
      → (groups : Groups) × (started : Started K) × (group_sites config.sites [] ≡ ok groups)
        × (start_groups load tls_feature groups ≡ ok started)
        × (started.handles ++ redirect_tasks started.tls_redirects ≡ tasks)
  unfolding start_all
  start_all_steps config tasks e =
      let (groups, more, grouped) =
        ok_steps
          (λ groups. start_groups load tls_feature groups >>= λ s.
            ok (s.handles ++ redirect_tasks s.tls_redirects))
          (group_sites config.sites []) tasks e in
      let (started, last, up) =
        ok_steps (λ (s : Started K). ok (s.handles ++ redirect_tasks s.tls_redirects))
          (start_groups load tls_feature groups) tasks more in
      (groups, started, grouped, up, cc last)
