-- ===== src/Server/Moves.antt =====
-- The events that can happen, as rules.
use mathlib.Core.Path.{subst}
use tiny_proxy.Base.{
  Bool, Bool-cases, List, Option-cases, [], false, inl, inr, none, refl, some, sym, true, ℕ, ◌∷◌,
  ◌≡◌, ◌⊎◌,
}
use tiny_proxy.Config.Models.{Config}
use tiny_proxy.Config.Parser.Invariant.{kept}
use tiny_proxy.Server.Connections.{
  Connection, Event, Phase, Running, Semaphore, accept_connection, acquire, begin_request,
  connection_ends, end_request, end_task, find_task, handshake_ends, handshaking, idle, in_request,
  request_begins, request_ends, resize, run, set_idle, set_max_concurrency, spawn_connection, step,
  update, update_config,
}

Phase-cases :
    (p : Phase) → (p ≡ handshaking) ⊎ ((p ≡ idle) ⊎ ((config : Config) × (p ≡ in_request config)))
Phase-cases handshaking = inl refl
Phase-cases idle = inr (inl refl)
Phase-cases (in_request config) = inr (inr (config, refl))

-- An event leads from one state to the other.
pub data Moves {S : Type 0} ⦃sem : Semaphore S⦄ (r : Running S) : Event → Running S → Type 0 where
  rejected :
      (t i : ℕ) (tls : Bool)
      → find_task t r.connections ≡ none
      → acquire i r.semaphores ≡ none
      → Moves r (accept_connection t i tls) r
  admitted :
      (t i : ℕ) (tls : Bool) (store : List S)
      → find_task t r.connections ≡ none
      → acquire i r.semaphores ≡ some store
      → Moves r (accept_connection t i tls) (spawn_connection t i tls store r)
  shaken :
      (t : ℕ) (x : Connection)
      → find_task t r.connections ≡ some x
      → x.phase ≡ handshaking
      → Moves r (handshake_ends t true) (set_idle t r)
  unshaken :
      (t : ℕ) (x : Connection)
      → find_task t r.connections ≡ some x
      → x.phase ≡ handshaking
      → Moves r (handshake_ends t false) (end_task x r)
  begun :
      (t : ℕ) (x : Connection)
      → find_task t r.connections ≡ some x
      → x.phase ≡ idle
      → Moves r (request_begins t) (begin_request t r)
  finished :
      (t : ℕ) (x : Connection) (config : Config)
      → find_task t r.connections ≡ some x
      → x.phase ≡ in_request config
      → Moves r (request_ends t) (end_request t r)
  ended :
      (t : ℕ) (x : Connection)
      → find_task t r.connections ≡ some x
      → Moves r (connection_ends t) (end_task x r)
  updated : (config : Config) → Moves r (update_config config) (update config r)
  resized : (max : ℕ) → Moves r (set_max_concurrency max) (resize max r)

module _ {S : Type 0} ⦃sem : Semaphore S⦄ where
  -- What leads to a state leads to an equal one.
  Moves-to :
      (r : Running S) (e : Event) (a b : Running S) → Moves r e a → some a ≡ some b → Moves r e b
  Moves-to r e a b m same = let one : a ≡ b = cc same in subst (Moves r e) one m

  -- Each step is by one of the rules.
  pub step-Moves : (e : Event) (r next : Running S) → step e r ≡ some next → Moves r e next
  unfolding step
  step-Moves (accept_connection t i tls) r next f =
      elim (Option-cases (find_task t r.connections)) [
        | inr (x, found) ↦ cc (rw (found, step) at f)
        | inl fresh ↦ elim (Option-cases (acquire i r.semaphores)) [
          | inl out ↦ Moves-to r _ r next (rejected t i tls fresh out) (rw (fresh, out, step) at f)
          | inr (store, got) ↦
              Moves-to r _ (spawn_connection t i tls store r) next
                (admitted t i tls store fresh got) (rw (fresh, got, step) at f)
        ]
      ]
  step-Moves (handshake_ends t fine) r next f = elim (Option-cases (find_task t r.connections)) [
    | inl gone ↦ cc (rw (gone, step) at f)
    | inr (x, found) ↦ elim (Phase-cases x.phase) [
      | inl shaking ↦ elim (Bool-cases fine) [
        | inl good ↦
            subst (λ b. Moves r (handshake_ends t b) next) (sym good)
              (Moves-to r _ (set_idle t r) next (shaken t x found shaking)
                (rw (found, shaking, good, step) at f))
        | inr bad ↦
            subst (λ b. Moves r (handshake_ends t b) next) (sym bad)
              (Moves-to r _ (end_task x r) next (unshaken t x found shaking)
                (rw (found, shaking, bad, step) at f))
      ]
      | inr (inl rests) ↦ cc (rw (found, rests, step) at f)
      | inr (inr (config, serves)) ↦ cc (rw (found, serves, step) at f)
    ]
  ]
  step-Moves (request_begins t) r next f = elim (Option-cases (find_task t r.connections)) [
    | inl gone ↦ cc (rw (gone, step) at f)
    | inr (x, found) ↦ elim (Phase-cases x.phase) [
      | inl shaking ↦ cc (rw (found, shaking, step) at f)
      | inr (inl rests) ↦
          Moves-to r _ (begin_request t r) next (begun t x found rests)
            (rw (found, rests, step) at f)
      | inr (inr (config, serves)) ↦ cc (rw (found, serves, step) at f)
    ]
  ]
  step-Moves (request_ends t) r next f = elim (Option-cases (find_task t r.connections)) [
    | inl gone ↦ cc (rw (gone, step) at f)
    | inr (x, found) ↦ elim (Phase-cases x.phase) [
      | inl shaking ↦ cc (rw (found, shaking, step) at f)
      | inr (inl rests) ↦ cc (rw (found, rests, step) at f)
      | inr (inr (config, serves)) ↦
          Moves-to r _ (end_request t r) next (finished t x config found serves)
            (rw (found, serves, step) at f)
    ]
  ]
  step-Moves (connection_ends t) r next f = elim (Option-cases (find_task t r.connections)) [
    | inl gone ↦ cc (rw (gone, step) at f)
    | inr (x, found) ↦ Moves-to r _ (end_task x r) next (ended t x found) (rw (found, step) at f)
  ]
  step-Moves (update_config config) r next f =
      Moves-to r _ (update config r) next (updated config) f
  step-Moves (set_max_concurrency max) r next f = Moves-to r _ (resize max r) next (resized max) f

  pub run_steps :
      (e : Event) (es : List Event) (r last : Running S)
      → run (e ∷ es) r ≡ some last
      → (next : Running S) × Moves r e next × (run es next ≡ some last)
  unfolding run
  run_steps e es r last f = elim (Option-cases (step e r)) [
    | inl never ↦ cc (rw (never, run) at f)
    | inr (next, went) ↦ (next, step-Moves e r next went, rw (went, run) at f)
  ]

  -- What each rule keeps, a run keeps.
  pub run-invariant :
      (I : Running S → Type 0)
      → ((e : Event) (r next : Running S) → Moves r e next → I r → I next)
      → (es : List Event) (r last : Running S) → run es r ≡ some last
      → I r
      → I last
  unfolding run
  run-invariant I kept [] r last f h = let same : r ≡ last = cc f in subst I same h
  run-invariant I kept (e ∷ es) r last f h =
      let (next, move, rest) = run_steps e es r last f in
      run-invariant I kept es next last rest (kept e r next move h)
