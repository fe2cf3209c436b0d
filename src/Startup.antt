-- ===== src/Startup.antt =====
-- Start-up and shutdown, src/main.rs with the arguments of src/cli/args.rs. Reading a file, the
-- metrics server and the key pairs are parameters; the arguments come parsed by the crate `clap`.
-- `Cli`.
pub mod Serving
mod Examples
use tiny_proxy.Base.{Bool, List, Option, [], false, if◌then◌else◌, ltb, none, some, true, ℕ, ◌∷◌}
use tiny_proxy.Base.Result.{Result, err, map_err, ok, ok_or, ◌>>=◌}
use tiny_proxy.Base.Text.{Text}
use tiny_proxy.Config.Address.{SocketAddr}
use tiny_proxy.Config.Models.{Config, TlsConfig}
use tiny_proxy.Config.Parser.{ParseError}
use tiny_proxy.Config.Parser.Lines.{from_str}
use tiny_proxy.Http.{Codec}
use tiny_proxy.Server.{Listener, StartError, start_all, start_with_addr}
use tiny_proxy.Server.Connections.{Running, Semaphore, new_proxy, resize}

pub record Cli : Type 0 where
  pub config : Text
  pub addr : Option Text
  pub max_concurrency : ℕ
  pub enable_api : Bool
  pub api_addr : Text
  pub metrics_addr : Option Text

pub data MainError : Type 0 where
  bad_metrics_addr : Text → MainError
  no_metrics_server : SocketAddr → MainError
  unreadable : Text → MainError
  bad_config : ParseError → MainError
  bad_addr : Text → MainError
  not_started : StartError → MainError

-- A proxy that runs, with the tasks of its listeners.
pub record Launched (S K : Type 0) : Type 0 where
  pub running : Running S
  pub tasks : List (Listener K)

-- `addr.parse::<SocketAddr>()`.
unfoldable pub parse_addr : ⦃c : Codec⦄ → Text → Option SocketAddr
parse_addr ⦃c⦄ addr = elim (c.socket_addr_from_str addr) [
  | none ↦ none
  | some (ip, port) ↦ some (record { ip = ip; port = port })
]

module _ {S : Type 0} ⦃sem : Semaphore S⦄ where
  -- A limit of 0 stands for the default.
  unfoldable pub set_limit : ℕ → Running S → Running S
  set_limit max r = if ltb 0 max then resize max r else r

-- What `main` runs: the proxy alone, or tasks for the management API, at its address if that can be
-- read, and for the proxy, which may fail to start.
pub data Program (S K : Type 0) : Type 0 where
  alone : Launched S K → Program S K
  beside_api : Option SocketAddr → Result MainError (Launched S K) → Program S K

module _ ⦃c : Codec⦄ (start_metrics_server : SocketAddr → Bool) where
  unfoldable pub start_metrics : Option Text → Result MainError (Unit {0})
  start_metrics none = ok tt
  start_metrics (some addr) = do
    a ← ok_or (parse_addr addr) (bad_metrics_addr addr)
    if start_metrics_server a then ok tt else err (no_metrics_server a)

module _ {K : Type 0} ⦃c : Codec⦄ (load : TlsConfig → Option K) (tls_feature : Bool) where
  -- `start` at the address that is given, or else `start_all`.
  unfoldable pub start_listeners : Option Text → Config → Result MainError (List (Listener K))
  start_listeners (some addr) config = do
    a ← ok_or (parse_addr addr) (bad_addr addr)
    l ← map_err not_started (start_with_addr load tls_feature config a)
    ok (l ∷ [])
  start_listeners none config = map_err not_started (start_all load tls_feature config)

  module _ {S : Type 0} ⦃sem : Semaphore S⦄ (env : Option Text) (num_cpus : ℕ) where
    -- `run_proxy_only` and `run_proxy_server`, up to the listeners.
    unfoldable pub run_proxy : Cli → Config → Result MainError (Launched S K)
    run_proxy cli config = do
      tasks ← start_listeners cli.addr config
      ok (record {
        running = set_limit cli.max_concurrency (new_proxy config env num_cpus);
        tasks = tasks;
      })

    unfoldable pub choose_run :
        Cli → Result MainError (Launched S K) → Result MainError (Program S K)
    choose_run cli launched =
        let beside : Result MainError (Program S K) =
          ok (beside_api (parse_addr cli.api_addr) launched) in
        let own : Result MainError (Program S K) = (launched >>= λ l. ok (alone l)) in
        if cli.enable_api then beside else own

    -- `main`, built with the management API.
    unfoldable pub main :
        (Text → Option Text) → (SocketAddr → Bool) → Cli → Result MainError (Program S K)
    main read_file start_metrics_server cli = do
      metrics ← start_metrics start_metrics_server cli.metrics_addr
      content ← ok_or (read_file cli.config) (unreadable cli.config)
      config ← map_err bad_config (from_str content)
      choose_run cli (run_proxy cli config)

-- The end of `run_with_api`: what `select!` sees first, and what a wait for a server comes to. A
-- handle that has given its result must not be polled again.
pub data FirstEnd : Type 0 where
  api_ends proxy_ends signal_comes : FirstEnd

pub data Wait : Type 0 where
  shut_down timed_out_wait polled_again : Wait

unfoldable pub api_done : FirstEnd → Bool
api_done api_ends = true
api_done proxy_ends = false
api_done signal_comes = false

unfoldable pub proxy_done_first : FirstEnd → Bool
proxy_done_first api_ends = false
proxy_done_first proxy_ends = true
proxy_done_first signal_comes = false

-- `timeout(…, handle)`: whether the handle has given its result, and whether its task ends in time.
unfoldable pub wait_for : Bool → Bool → Wait
wait_for true in_time = polled_again
wait_for false true = shut_down
wait_for false false = timed_out_wait

-- The waits of `run_with_api`; a panic ends it.
unfoldable pub shutdown_waits : FirstEnd → Bool → Bool → List Wait
shutdown_waits end api_in_time proxy_in_time =
    let proxy_wait = wait_for (proxy_done_first end) proxy_in_time in
    elim (wait_for (api_done end) api_in_time) [
      | polled_again ↦ polled_again ∷ []
      | shut_down ↦ shut_down ∷ proxy_wait ∷ []
      | timed_out_wait ↦ timed_out_wait ∷ proxy_wait ∷ []
    ]
