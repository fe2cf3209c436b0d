-- ===== src/Server/Examples.antt =====
-- The server at small configurations and short runs.
-- A counter as a semaphore: it shows that the laws can hold.
use tiny_proxy.Base.{
  List, Option, [], arith, false, none, refl, some, suc, zero, ℕ, ◌↔◌, ◌∷◌, ◌≡◌, ◌≤◌,
}
use tiny_proxy.Base.Text.{codes}
use tiny_proxy.Base.Text.Runs.{text_runs}
use tiny_proxy.Config.Address.{extract_hostname, resolve_listen_addr, tls_redirect_port}
use tiny_proxy.Config.Models.{Config, nil}
use tiny_proxy.Config.Sockets.{addr_eq}
use tiny_proxy.Http.Sample.{sample_codec, sample_headers}
use tiny_proxy.Proxy.Tls.{
  build_resolver, first_by_name, get_entry, is_default, least_name, load_sites, resolve, text_le,
}
use tiny_proxy.Server.{
  group_sites, host_matches, insert_redirect, matching_tls, push_site, redirect_of_port,
  redirect_tasks, site_addr_matches, spawn, start_all, start_group, start_groups, start_tls,
  start_with_addr, tls_entries, tls_sites,
}
use tiny_proxy.Server.Connections.{
  Event, Running, Semaphore, accept_connection, acquire, begin_request, drop_task, end_request,
  end_task, find_task, give_back, idle, in_request, initial_max, is_serving, new_proxy,
  request_begins, resize, run, set_idle, set_max_concurrency, set_phase, spawn_connection, step,
  update, update_config,
}
use tiny_proxy.Server.Limits.{budget, held, in_flight, run-Counted, run-limited}
use tiny_proxy.Server.Snapshots.{ServesWith, leaves_alone, run-snapshot}
use tiny_proxy.Server.Tasks.{permits_at, total}

unfoldable pub take_one : ℕ → Option ℕ
take_one zero = none
take_one (suc n) = some n

pub take_one-none : (s : ℕ) → (take_one s ≡ none) ↔ (s ≡ 0)
unfolding take_one
take_one-none zero = (λ e. refl, λ e. refl)
take_one-none (suc n) = ground arith

pub take_one-some : (s t : ℕ) → take_one s ≡ some t → s ≡ suc t
unfolding take_one
take_one-some zero t e = cc
take_one-some (suc n) t e = ground arith

instance abbrev pub counter : Semaphore ℕ
counter = record {
  new_semaphore = λ n. n;
  try_acquire_owned = take_one;
  release = suc;
  available_permits = λ s. s;
  available_permits-new_semaphore = λ n. refl;
  try_acquire_owned-none = take_one-none;
  try_acquire_owned-some = take_one-some;
  available_permits-release = λ s. refl;
}

server_runs : Unit {0}
unfolding start_all start_with_addr start_groups start_group start_tls group_sites push_site
    tls_sites tls_entries spawn insert_redirect redirect_of_port redirect_tasks matching_tls
    site_addr_matches host_matches tls_redirect_port resolve_listen_addr extract_hostname addr_eq
    load_sites build_resolver first_by_name least_name get_entry resolve is_default text_le step run
    acquire give_back end_task spawn_connection set_idle begin_request end_request update resize
    find_task drop_task set_phase is_serving initial_max new_proxy held in_flight total permits_at
    budget leaves_alone take_one text_runs
server_runs = tt

abbrev empty_config : Config
empty_config = record { sites = [] }

abbrev started : Running ℕ
started = new_proxy empty_config (some (codes "1")) 4

abbrev one_site : Config
one_site = record {
  sites = (codes "a:80", record { address = codes "a:80"; directives = nil; tls = none }) ∷ [];
}

-- A second connection is rejected at a limit of one, also after the limit was raised.
abbrev busy : List Event
busy =
    accept_connection 1 0 false
    ∷ request_begins 1
    ∷ set_max_concurrency 5
    ∷ accept_connection 2 0 false
    ∷ update_config one_site
    ∷ []

abbrev crowded : Running ℕ
crowded = record {
  config = one_site;
  max_concurrency = 5;
  semaphore = 1;
  semaphores = 0 ∷ 5 ∷ [];
  connections = record { task = 1; semaphore_of = 0; phase = in_request empty_config } ∷ [];
  active_requests = 1;
}

run-limited_example :
    (held 0 crowded.connections ≤ 1)
    × ((acquire 0 crowded.semaphores ≡ none) ↔ (held 0 crowded.connections ≡ 1))
unfolding server_runs
run-limited_example = run-limited 0 busy started crowded (omega arith) refl

gauge_counts : crowded.active_requests ≡ in_flight crowded.connections
unfolding server_runs
gauge_counts = run-Counted empty_config (some (codes "1")) 4 busy crowded refl

abbrev connected : Running ℕ
connected = record {
  config = empty_config;
  max_concurrency = 1;
  semaphore = 0;
  semaphores = 0 ∷ [];
  connections = record { task = 1; semaphore_of = 0; phase = idle } ∷ [];
  active_requests = 0;
}

run-snapshot_example : ServesWith 1 empty_config crowded
unfolding server_runs
run-snapshot_example =
    run-snapshot 1
      (set_max_concurrency 5 ∷ accept_connection 2 0 false ∷ update_config one_site ∷ []) connected
      crowded refl refl
