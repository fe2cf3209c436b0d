-- ===== src/Server/Connections.antt =====
-- The proxy while it runs, src/proxy/proxy.rs and `listen_tls` of src/proxy/tls.rs: connections,
-- the requests on them, and the changes that the methods of `Proxy` make. What happens is a list of
-- events in the order in which they happen; the tasks of tokio are the connections. The semaphores
-- stand in a store, since a listener keeps the one that the proxy had when it started.
-- `Semaphore` of tokio: permits that are taken without idle, and given back when the permit is
-- dropped. Its code is not part of the repository.
use mathlib.Core.Option
use tiny_proxy.Base.{
  Bool, List, Option, [], false, if◌then◌else◌, is_some, length, none, some, suc, true, zero, ℕ,
  ◌*◌, ◌++◌, ◌-◌, ◌==◌, ◌↔◌, ◌∷◌, ◌≡◌,
}
use tiny_proxy.Base.Text.{Text, parse_uint}
use tiny_proxy.Config.Address.{u64_bound}
use tiny_proxy.Config.Models.{Config}

pub record Semaphore (S : Type 0) : Type 0 where
  pub new_semaphore : ℕ → S
  pub try_acquire_owned : S → Option S
  pub release : S → S
  pub available_permits : S → ℕ
  pub available_permits-new_semaphore : (n : ℕ) → available_permits (new_semaphore n) ≡ n
  pub try_acquire_owned-none : (s : S) → (try_acquire_owned s ≡ none) ↔ (available_permits s ≡ 0)
  pub try_acquire_owned-some :
      (s t : S) → try_acquire_owned s ≡ some t → available_permits s ≡ suc (available_permits t)
  pub available_permits-release :
      (s : S) → available_permits (release s) ≡ suc (available_permits s)

-- What a connection does: the TLS handshake, nothing, or a request, with the configuration that the
-- request was given.
pub data Phase : Type 0 where
  handshaking : Phase
  idle : Phase
  in_request : Config → Phase

pub record Connection : Type 0 where
  pub task : ℕ
  pub semaphore_of : ℕ
  pub phase : Phase

-- `Proxy` with what its tasks share; `active_requests` is the gauge of `MetricsGuard`.
pub record Running (S : Type 0) : Type 0 where
  pub config : Config
  pub max_concurrency : ℕ
  pub semaphore : ℕ
  pub semaphores : List S
  pub connections : List Connection
  pub active_requests : ℕ

pub data Event : Type 0 where
  accept_connection : ℕ → ℕ → Bool → Event
  handshake_ends : ℕ → Bool → Event
  request_begins request_ends connection_ends : ℕ → Event
  update_config : Config → Event
  set_max_concurrency : ℕ → Event

unfoldable pub find_task : ℕ → List Connection → Option Connection
find_task t [] = none
find_task t (x ∷ xs) = if x.task == t then some x else find_task t xs

unfoldable pub drop_task : ℕ → List Connection → List Connection
drop_task t [] = []
drop_task t (x ∷ xs) = if x.task == t then xs else x ∷ drop_task t xs

unfoldable pub set_phase : ℕ → Phase → List Connection → List Connection
set_phase t p [] = []
set_phase t p (x ∷ xs) = if x.task == t then record x { phase = p } ∷ xs else x ∷ set_phase t p xs

unfoldable pub is_serving : Phase → Bool
is_serving handshaking = false
is_serving idle = false
is_serving (in_request config) = true

-- The limit of `Proxy::new`: the environment variable, if it is a number, or the default.
unfoldable pub initial_max : Option Text → ℕ → ℕ
initial_max env num_cpus =
    Option.get_or (elim env [ none ↦ none | some v ↦ parse_uint u64_bound v ]) (num_cpus * 256)

module _ {S : Type 0} ⦃sem : Semaphore S⦄ where
  -- `none` where the semaphore has no permit.
  unfoldable pub acquire : ℕ → List S → Option (List S)
  acquire i [] = none
  acquire zero (s ∷ store) = Option.map (λ t. t ∷ store) (sem.try_acquire_owned s)
  acquire (suc i) (s ∷ store) = Option.map (λ rest. s ∷ rest) (acquire i store)

  unfoldable pub give_back : ℕ → List S → List S
  give_back i [] = []
  give_back zero (s ∷ store) = sem.release s ∷ store
  give_back (suc i) (s ∷ store) = s ∷ give_back i store

  -- A task ends: its permit and, if it serves a request, its `MetricsGuard` are dropped.
  unfoldable pub end_task : Connection → Running S → Running S
  end_task x r = record r {
    semaphores = give_back x.semaphore_of r.semaphores;
    connections = drop_task x.task r.connections;
    active_requests = if is_serving x.phase then r.active_requests - 1 else r.active_requests;
  }

  -- A connection that has a permit gets its task.
  unfoldable pub spawn_connection : ℕ → ℕ → Bool → List S → Running S → Running S
  spawn_connection t i tls store r = record r {
    semaphores = store;
    connections =
        record { task = t; semaphore_of = i; phase = if tls then handshaking else idle }
        ∷ r.connections;
  }

  unfoldable pub set_idle : ℕ → Running S → Running S
  set_idle t r = record r { connections = set_phase t idle r.connections }

  -- The service function of a connection: the request gets the configuration of the moment, and
  -- `proxy` makes a `MetricsGuard`.
  unfoldable pub begin_request : ℕ → Running S → Running S
  begin_request t r = record r {
    connections = set_phase t (in_request r.config) r.connections;
    active_requests = suc r.active_requests;
  }

  -- `proxy` returns, and drops the `MetricsGuard`.
  unfoldable pub end_request : ℕ → Running S → Running S
  end_request t r = record r {
    connections = set_phase t idle r.connections;
    active_requests = r.active_requests - 1;
  }

  -- `update_config`, and `store` of the management API.
  unfoldable pub update : Config → Running S → Running S
  update config r = record r { config = config }

  -- `set_max_concurrency`.
  unfoldable pub resize : ℕ → Running S → Running S
  resize max r = record r {
    max_concurrency = max;
    semaphore = length r.semaphores;
    semaphores = r.semaphores ++ sem.new_semaphore max ∷ [];
  }

  -- `none` where the event cannot happen in the state.
  unfoldable pub step : Event → Running S → Option (Running S)
  step (accept_connection t i tls) r =
      if is_some (find_task t r.connections) then none else elim (acquire i r.semaphores) [
        | none ↦ some r
        | some store ↦ some (spawn_connection t i tls store r)
      ]
  step (handshake_ends t fine) r = elim (find_task t r.connections) [
    | none ↦ none
    | some x ↦ elim x.phase [
      | handshaking ↦ some (if fine then set_idle t r else end_task x r)
      | idle ↦ none
      | in_request config ↦ none
    ]
  ]
  step (request_begins t) r = elim (find_task t r.connections) [
    | none ↦ none
    | some x ↦ elim x.phase [
      | handshaking ↦ none
      | idle ↦ some (begin_request t r)
      | in_request config ↦ none
    ]
  ]
  step (request_ends t) r = elim (find_task t r.connections) [
    | none ↦ none
    | some x ↦ elim x.phase [
      | handshaking ↦ none
      | idle ↦ none
      | in_request config ↦ some (end_request t r)
    ]
  ]
  step (connection_ends t) r = elim (find_task t r.connections) [
    | none ↦ none
    | some x ↦ some (end_task x r)
  ]
  step (update_config config) r = some (update config r)
  step (set_max_concurrency max) r = some (resize max r)

  unfoldable pub run : List Event → Running S → Option (Running S)
  run [] r = some r
  run (e ∷ es) r = elim (step e r) [ none ↦ none | some next ↦ run es next ]

  -- `Proxy::new` and `Proxy::from_shared`.
  unfoldable pub new_proxy : Config → Option Text → ℕ → Running S
  new_proxy config env num_cpus = record {
    config = config;
    max_concurrency = initial_max env num_cpus;
    semaphore = 0;
    semaphores = sem.new_semaphore (initial_max env num_cpus) ∷ [];
    connections = [];
    active_requests = 0;
  }
