-- ===== src/Proxy/Examples/Requests.antt =====
-- Whole requests, and their directives.
use tiny_proxy.Base.{[], false, refl}
use tiny_proxy.Http.Sample.{sample_codec, sample_headers}
use tiny_proxy.Proxy.Examples.{
  admitted, auth_config, backend, client_request, config, context, entering, forwarded_request,
  path_a, peer, silent_world, site_directives, to_backend, world,
}
use tiny_proxy.Proxy.Examples.Runs.{proxy_runs}
use tiny_proxy.Proxy.Handler.{proxy}
use tiny_proxy.Proxy.Handler.Accounting.{Accounted, Always, proxy-Accounted}
use tiny_proxy.Proxy.Handler.Identification.{Identified, proxy-Identified}
use tiny_proxy.Proxy.Handler.Protection.{Routed, proxy-Routed}
use tiny_proxy.Proxy.Pipeline.{action, process_directives}
use tiny_proxy.Proxy.Pipeline.Gates.{Permits, forward_auth_step-Permits}
use tiny_proxy.Proxy.Pipeline.Outcomes.{
  AllPermit, Keeps, process_directives-AllPermit, process_directives-Keeps,
}
use tiny_proxy.Proxy.Pipeline.Routing.{SameRoute, process_directives-SameRoute}
use tiny_proxy.Proxy.Pipeline.Rules.{Runs, process_directives_iff}
use tiny_proxy.Proxy.State.{set_headers}

proxy-Routed_example : Routed world config peer false client_request forwarded_request
unfolding proxy_runs
proxy-Routed_example =
    proxy-Routed world backend config peer false client_request _ forwarded_request refl refl

proxy-Accounted_example : Always Accounted (proxy world backend config peer false client_request)
proxy-Accounted_example = proxy-Accounted world backend config peer false client_request

forward_auth_step-Permits_example : Permits world context auth_config entering admitted
unfolding proxy_runs
forward_auth_step-Permits_example =
    forward_auth_step-Permits world context auth_config entering admitted refl

run_of_the_site :
    Runs world context site_directives path_a path_a entering (action to_backend admitted)
unfolding proxy_runs
run_of_the_site =
    (process_directives_iff world context site_directives path_a path_a entering
        (action to_backend admitted)).0
      refl

process_directives-AllPermit_example :
    (r : Runs world context site_directives path_a path_a entering (action to_backend admitted))
    × AllPermit world context r
unfolding proxy_runs
process_directives-AllPermit_example =
    process_directives-AllPermit world context site_directives path_a path_a entering
      (action to_backend admitted) refl

request_kept :
    Keeps world context entering
      (process_directives world context site_directives path_a path_a entering)
request_kept = process_directives-Keeps world context site_directives path_a path_a entering

proxy-Identified_example : Always Identified (proxy world backend config peer false client_request)
proxy-Identified_example = proxy-Identified world backend config peer false client_request

-- The same site without the headers of the client, in a world where nothing answers.
process_directives-SameRoute_example :
    SameRoute (process_directives world context site_directives path_a path_a entering) (
      process_directives silent_world context site_directives path_a path_a
        (set_headers entering []))
process_directives-SameRoute_example =
    process_directives-SameRoute world silent_world context context site_directives path_a path_a
      entering (set_headers entering []) refl
