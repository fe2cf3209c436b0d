-- ===== src/Startup/Serving.antt =====
-- A program that is started with a good configuration file serves its sites, within its limit.
-- The limit on connections that the arguments and the environment give.
use mathlib.Core.Path.{subst}
use tiny_proxy.Base.{
  All, Bool, Bool-cases, List, Option, arith, false, if◌then◌else◌, inl, inr, length, ltb, none,
  refl, some, true, ℕ, ◌<◌, ◌≡◌, ◌≤◌,
}
use tiny_proxy.Base.Result.{Result, ok}
use tiny_proxy.Base.Text.{Text}
use tiny_proxy.Config.Address.{SocketAddr}
use tiny_proxy.Config.Models.{Config, TlsConfig}
use tiny_proxy.Config.Parser.Lines.{from_str}
use tiny_proxy.Http.{Codec}
use tiny_proxy.Server.Connections.{Event, Running, Semaphore, initial_max, new_proxy, resize, run}
use tiny_proxy.Server.Limits.{budget, held, run-limited}
use tiny_proxy.Server.Listeners.{HasListener, from_str-HasListener}
use tiny_proxy.Server.Serving.{Loads}
use tiny_proxy.Server.Tasks.{permits_at, total}
use tiny_proxy.Startup.{
  Cli, Launched, alone, beside_api, choose_run, main, parse_addr, run_proxy, set_limit,
  start_listeners, start_metrics,
}

abbrev pub limit_of : Cli → Option Text → ℕ → ℕ
limit_of cli env num_cpus =
    if ltb 0 cli.max_concurrency then cli.max_concurrency else initial_max env num_cpus

if-ok :
    {E A : Type 0} (b : Bool) (x y : A)
    → ◌≡◌ {A = Result E A} (if b then ok x else ok y) (ok (if b then x else y))
if-ok true x y = refl
if-ok false x y = refl

module _ {S : Type 0} ⦃sem : Semaphore S⦄ where
  -- The proxy's semaphore has the permits that the arguments and the environment give.
  set_limit-budget :
      (cli : Cli) (config : Config) (env : Option Text) (num_cpus : ℕ) (r : Running S)
      → set_limit cli.max_concurrency (new_proxy config env num_cpus) ≡ r
      → (budget r.semaphore r ≡ limit_of cli env num_cpus) × (r.semaphore < length r.semaphores)
  unfolding set_limit new_proxy resize budget permits_at held total
  set_limit-budget cli config env num_cpus r e = elim (Bool-cases (ltb 0 cli.max_concurrency)) [
    | inl given ↦
        subst
          (λ (r : Running S).
            (budget r.semaphore r ≡ limit_of cli env num_cpus)
            × (r.semaphore < length r.semaphores))
          e
          (rw given
            (omega (arith, sem.available_permits-new_semaphore cli.max_concurrency), omega arith))
    | inr default_limit ↦
        subst
          (λ (r : Running S).
            (budget r.semaphore r ≡ limit_of cli env num_cpus)
            × (r.semaphore < length r.semaphores))
          e
          (rw default_limit (
            omega (arith, sem.available_permits-new_semaphore (initial_max env num_cpus)),
            omega arith,
          ))
  ]

  -- Whatever happens to a proxy: the connections of its own semaphore stay within a limit.
  abbrev pub StaysWithin : ℕ → Running S → Type 0
  StaysWithin limit r =
      (es : List Event) (last : Running S)
      → run es r ≡ some last
      → held r.semaphore last.connections ≤ limit

module _ {S K : Type 0} ⦃sem : Semaphore S⦄ ⦃c : Codec⦄ (load : TlsConfig → Option K) where
  -- A program that is started without an address, with a file that is read and whose key pairs can
  -- be read: each site of the file is served by one of the tasks that it runs, on the site's socket,
  -- with TLS exactly if the site has it, and then with the site's own certificate; and whatever
  -- happens, the connections with permits of the proxy's semaphore are at most the limit that the
  -- arguments, or else the environment, give.
  pub main-HasListener :
      (env : Option Text) (num_cpus : ℕ) (read_file : Text → Option Text)
      (start_metrics_server : SocketAddr → Bool) (cli : Cli) (content : Text) (config : Config)
      → cli.addr ≡ none
      → start_metrics start_metrics_server cli.metrics_addr ≡ ok tt
      → read_file cli.config ≡ some content
      → from_str content ≡ ok config
      → All (λ e. Loads load e.1) config.sites
      → (l : Launched S K) × (main load true env num_cpus read_file start_metrics_server cli
          ≡ ok (if cli.enable_api then beside_api (parse_addr cli.api_addr) (ok l) else alone l))
        × All (λ e. HasListener load l.tasks e.1) config.sites
        × StaysWithin (limit_of cli env num_cpus) l.running
  unfolding main choose_run run_proxy start_listeners
  main-HasListener env num_cpus read_file start_metrics_server cli content config no_addr metrics
        file parsed keys =
      let (tasks, up, listeners) = from_str-HasListener load content config parsed keys in
      let running = set_limit cli.max_concurrency (new_proxy config env num_cpus) in
      let (permits, there_is) = set_limit-budget cli config env num_cpus running refl in
      (
        record { running = running; tasks = tasks },
        rw (metrics, file, parsed, no_addr, up, main, run_proxy, start_listeners)
            (if-ok cli.enable_api _ _),
        listeners,
        λ es last e.
            let (bound, _) = run-limited running.semaphore es running last there_is e in
            omega (arith, bound, permits),
      )
