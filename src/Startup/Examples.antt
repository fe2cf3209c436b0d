-- ===== src/Startup/Examples.antt =====
-- The start of the listeners for a file with a TLS site and a plain one.
use mathlib.Core.List.{Memᴰ}
use tiny_proxy.Base.{All, List, Option, [], none, refl, some, true, ℕ, ◌++◌, ◌↔◌, ◌∷◌, ◌≡◌}
use tiny_proxy.Base.Result.{ok}
use tiny_proxy.Base.Text.{Text, codes}
use tiny_proxy.Config.Address.{SocketAddr, resolve_listen_addr, tls_redirect_port}
use tiny_proxy.Config.Models.{Config, Directives, SiteConfig, TlsConfig, cons, nil, respond}
use tiny_proxy.Config.Parser.Lines.{from_str}
use tiny_proxy.Config.Parser.Tests.{parser_runs}
use tiny_proxy.Http.Sample.{sample_codec, sample_headers}
use tiny_proxy.Proxy.Tls.{
  SniCertResolver, build_resolver, first_by_name, get_entry, is_default, least_name, load_sites,
  resolve, text_le,
}
use tiny_proxy.Server.Examples.{counter}
use tiny_proxy.Server.{
  Listener, group_sites, host_matches, http, http_redirect, https, insert_redirect, matching_tls,
  push_site, redirect_of_port, redirect_tasks, site_addr_matches, spawn, start_all, start_group,
  start_groups, start_tls, start_with_addr, tls_entries, tls_sites,
}
use tiny_proxy.Server.Coverage.{
  Covered, distinct_sockets, is_redirect, serves_tls, socket_of, start_all-Covers,
}
use tiny_proxy.Server.Listeners.{HasListener, from_str-HasListener}
use tiny_proxy.Server.OneListener.{start_with_addr-named}
use tiny_proxy.Server.Redirects.{HasSource, start_all-redirect_iff}
use tiny_proxy.Server.Serving.{Loads}
use tiny_proxy.Startup.{
  Cli, Launched, api_done, api_ends, beside_api, main, parse_addr, polled_again, proxy_done_first,
  shut_down, shutdown_waits, signal_comes, start_metrics, wait_for,
}
use tiny_proxy.Startup.Serving.{StaysWithin, main-HasListener}

starting_runs : Unit {0}
unfolding start_all start_with_addr start_groups start_group start_tls group_sites push_site
    tls_sites tls_entries spawn insert_redirect redirect_of_port redirect_tasks matching_tls
    site_addr_matches host_matches tls_redirect_port load_sites build_resolver first_by_name
    least_name get_entry resolve is_default text_le socket_of serves_tls is_redirect start_metrics
    parse_addr wait_for shutdown_waits api_done proxy_done_first parser_runs
starting_runs = tt

abbrev content : Text
content = codes "A.org:443 {\n  tls c k\n  respond 200 ok\n}\nb:81 {\n  respond 200 ok\n}\n"

abbrev key_pair : TlsConfig
key_pair = record { cert_path = codes "c"; key_path = codes "k" }

abbrev answers_ok : Directives
answers_ok = cons (respond 200 (codes "ok")) nil

abbrev secure_site : SiteConfig
secure_site = record { address = codes "A.org:443"; directives = answers_ok; tls = some key_pair }

abbrev plain_site : SiteConfig
plain_site = record { address = codes "b:81"; directives = answers_ok; tls = none }

abbrev file_config : Config
file_config = record { sites = (codes "b:81", plain_site) ∷ (codes "A.org:443", secure_site) ∷ [] }

content_read : from_str content ≡ ok file_config
unfolding starting_runs
content_read = refl

-- A key pair is named by its file here.
abbrev load_name : TlsConfig → Option Text
load_name cfg = some cfg.cert_path

every_key_readable : (s : SiteConfig) → Loads load_name s
every_key_readable s cfg e = (cfg.cert_path, refl)

abbrev at_port : ℕ → SocketAddr
at_port port = record { ip = codes "0.0.0.0"; port = port }

abbrev resolver : SniCertResolver Text
resolver = record { entries = (codes "a.org", codes "c") ∷ []; default = some (codes "c") }

abbrev tasks : List (Listener Text)
tasks = http (at_port 81) ∷ https (at_port 443) resolver ∷ http_redirect (at_port 80) 443 ∷ []

start_all_run : start_all load_name true file_config ≡ ok tasks
unfolding starting_runs
start_all_run = refl

file_comes_up :
    (up : List (Listener Text)) × (start_all load_name true file_config ≡ ok up)
    × All (λ e. HasListener load_name up e.1) file_config.sites
file_comes_up =
    from_str-HasListener load_name content file_config content_read
      (every_key_readable plain_site, (every_key_readable secure_site, tt))

start_all-Covers_example :
    All (λ e. Covered tasks e.1) file_config.sites
    × ((listeners : List (Listener Text)) × (redirects : List (SocketAddr × ℕ)) × (tasks
          ≡ listeners ++ redirect_tasks redirects)
        × (distinct_sockets listeners ≡ true))
start_all-Covers_example = start_all-Covers load_name true file_config tasks start_all_run

start_all-redirect_iff_example :
    Memᴰ (http_redirect (at_port 80) 443) tasks ↔ HasSource (at_port 80, 443) tasks
start_all-redirect_iff_example =
    start_all-redirect_iff load_name true file_config tasks (at_port 80) 443 start_all_run

-- The site of `localhost` listens on all addresses in `start_all`, but is not found by
-- `start_with_addr` at that socket: its TLS site is then served without TLS.
abbrev local_config : Config
local_config = record {
  sites =
      (
        codes "localhost:8443",
        record { address = codes "localhost:8443"; directives = nil; tls = some key_pair },
      )
      ∷ [];
}

local_resolver : resolve_listen_addr (codes "localhost:8443") ≡ some (at_port 8443)
unfolding starting_runs
local_resolver = refl

local_without_tls :
    start_with_addr load_name true local_config (at_port 8443) ≡ ok (http (at_port 8443))
unfolding starting_runs
local_without_tls = refl

named_site_found :
    (socket_of {K = Text} (https (at_port 443) resolver) ≡ at_port 443)
    × (serves_tls {K = Text} (https (at_port 443) resolver) ≡ true)
unfolding starting_runs
named_site_found =
    start_with_addr-named load_name true file_config (at_port 443) (https (at_port 443) resolver)
      (codes "A.org:443") secure_site (Memᴰ.tail (Memᴰ.head refl)) refl refl refl refl refl refl

-- The proxy is started with this file and a limit of 7.
abbrev arguments : Cli
arguments = record {
  config = codes "f";
  addr = none;
  max_concurrency = 7;
  enable_api = true;
  api_addr = codes "127.0.0.1:8081";
  metrics_addr = none;
}

abbrev read_it : Text → Option Text
read_it path = some content

main-HasListener_example :
    (l : Launched ℕ Text) × (main load_name true none 4 read_it (λ a. true) arguments
      ≡ ok (beside_api none (ok l)))
    × All (λ e. HasListener load_name l.tasks e.1) file_config.sites
    × StaysWithin 7 l.running
unfolding starting_runs
main-HasListener_example =
    main-HasListener load_name none 4 read_it (λ a. true) arguments content file_config refl refl
      refl content_read (every_key_readable plain_site, (every_key_readable secure_site, tt))

-- A server that ends first has its handle polled again, and then the other one is not waited for.
api_ended_first : shutdown_waits api_ends true true ≡ polled_again ∷ []
unfolding starting_runs
api_ended_first = refl

both_in_time : shutdown_waits signal_comes true true ≡ shut_down ∷ shut_down ∷ []
unfolding starting_runs
both_in_time = refl
