-- ===== src/Server/Snapshots.antt =====
-- The configuration that a request is served with.
-- An event is not the end of a task's request or connection.
use mathlib.Core.Path.{subst}
use tiny_proxy.Base.{
  ==_iff, Bool, Bool-cases, List, [], all, and_parts, ap, arith, false, inl, inr, not, refl, some,
  suc, true, ℕ, ◌-◌, ◌==◌, ◌∙◌, ◌∷◌, ◌≡◌,
}
use tiny_proxy.Config.Models.{Config}
use tiny_proxy.Proxy.AccessLog.{new}
use tiny_proxy.Server.Connections.{
  Connection, Event, Phase, Running, Semaphore, accept_connection, begin_request, connection_ends,
  end_request, end_task, find_task, handshake_ends, idle, in_request, request_begins, request_ends,
  resize, run, set_idle, set_max_concurrency, set_phase, spawn_connection, update, update_config,
}
use tiny_proxy.Server.Moves.{
  Moves, admitted, begun, ended, finished, rejected, resized, run_steps, shaken, unshaken, updated,
}
use tiny_proxy.Server.Tasks.{
  find_task-drop_task_other, find_task-set_phase, find_task-set_phase_other, find_task_named,
}

unfoldable pub leaves_alone : ℕ → Event → Bool
leaves_alone t (accept_connection u i tls) = true
leaves_alone t (handshake_ends u fine) = true
leaves_alone t (request_begins u) = true
leaves_alone t (request_ends u) = not (u == t)
leaves_alone t (connection_ends u) = not (u == t)
leaves_alone t (update_config config) = true
leaves_alone t (set_max_concurrency max) = true

module _ {S : Type 0} where
  -- A task serves a request with a configuration.
  abbrev pub ServesWith : ℕ → Config → Running S → Type 0
  ServesWith t config r =
      (x : Connection) × (find_task t r.connections ≡ some x) × (x.phase ≡ in_request config)

module _ {S : Type 0} ⦃sem : Semaphore S⦄ where
  other_task :
      (t u : ℕ) (config : Config) (r : Running S) (x : Connection)
      → ServesWith t config r
      → find_task u r.connections ≡ some x
      → (x.phase ≡ in_request config → ⊥)
      → (u == t) ≡ false
  other_task t u config r x (y, found, serves) e differs = elim (Bool-cases (u == t)) [
    | inr other ↦ other
    | inl same ↦
        let one : y ≡ x = cc (found, e, (==_iff u t).0 same) in
        absurd (differs (subst (λ (z : Connection). z.phase ≡ in_request config) one serves))
  ]

  phase-ServesWith :
      (t u : ℕ) (config : Config) (p : Phase) (r : Running S) (n : ℕ)
      → ServesWith t config r
      → (u == t) ≡ false
      → ServesWith t config
          (record r { connections = set_phase u p r.connections; active_requests = n })
  phase-ServesWith t u config p r n (y, found, serves) e =
      (y, find_task-set_phase_other t u p r.connections e ∙ found, serves)

  end_task-ServesWith :
      (t u : ℕ) (config : Config) (x : Connection) (r : Running S)
      → ServesWith t config r
      → find_task u r.connections ≡ some x
      → (u == t) ≡ false
      → ServesWith t config (end_task x r)
  unfolding end_task
  end_task-ServesWith t u config x r (y, found, serves) f e =
      let named = find_task_named u r.connections x f in
      (
        y,
        find_task-drop_task_other t x.task r.connections (ap (λ k. k == t) named ∙ e) ∙ found,
        serves,
      )

  Moves-ServesWith :
      (t : ℕ) (config : Config) (e : Event) (r next : Running S)
      → leaves_alone t e ≡ true
      → Moves r e next
      → ServesWith t config r
      → ServesWith t config next
  unfolding leaves_alone spawn_connection set_idle begin_request end_request update resize find_task
  Moves-ServesWith t config e r next k (rejected u j tls fresh out) s = s
  Moves-ServesWith t config e r next k (admitted u j tls store fresh got) (y, found, serves) = (
    y,
    elim (Bool-cases (u == t)) [
      | inl same ↦ cc (fresh, found, (==_iff u t).0 same)
      | inr other ↦ rw other found
    ],
    serves,
  )
  Moves-ServesWith t config e r next k (shaken u x found p) s =
      phase-ServesWith t u config idle r r.active_requests s
        (other_task t u config r x s found (λ q. cc (p, q)))
  Moves-ServesWith t config e r next k (unshaken u x found p) s =
      end_task-ServesWith t u config x r s found
        (other_task t u config r x s found (λ q. cc (p, q)))
  Moves-ServesWith t config e r next k (begun u x found p) s =
      phase-ServesWith t u config (in_request r.config) r (suc r.active_requests) s
        (other_task t u config r x s found (λ q. cc (p, q)))
  Moves-ServesWith t config e r next k (finished u x old found p) s =
      phase-ServesWith t u config idle r (r.active_requests - 1) s (ground (arith, k))
  Moves-ServesWith t config e r next k (ended u x found) s =
      end_task-ServesWith t u config x r s found (ground (arith, k))
  Moves-ServesWith t config e r next k (updated new) s = s
  Moves-ServesWith t config e r next k (resized max) s = s

  run-ServesWith :
      (t : ℕ) (config : Config) (es : List Event) (r last : Running S)
      → all (leaves_alone t) es ≡ true
      → run es r ≡ some last
      → ServesWith t config r
      → ServesWith t config last
  unfolding run
  run-ServesWith t config [] r last k f s =
      let same : r ≡ last = cc f in subst (ServesWith t config) same s
  run-ServesWith t config (e ∷ es) r last k f s =
      let (next, move, rest) = run_steps e es r last f in
      let (now, later_on) = and_parts (leaves_alone t e) (all (leaves_alone t) es) k in
      run-ServesWith t config es next last later_on rest
        (Moves-ServesWith t config e r next now move s)

  begun-ServesWith :
      (t : ℕ) (r next : Running S) → Moves r (request_begins t) next → ServesWith t r.config next
  unfolding begin_request
  begun-ServesWith t r next (begun u x found p) =
      (_, find_task-set_phase t (in_request r.config) r.connections x found, refl)

  -- A request is served with the configuration that is current when it begins, until its response
  -- or the end of its connection, whatever happens in between: updates of the configuration do not
  -- change it.
  pub run-snapshot :
      (t : ℕ) (es : List Event) (r last : Running S)
      → all (leaves_alone t) es ≡ true
      → run (request_begins t ∷ es) r ≡ some last
      → ServesWith t r.config last
  run-snapshot t es r last k f =
      let (next, move, rest) = run_steps (request_begins t) es r last f in
      run-ServesWith t r.config es next last k rest (begun-ServesWith t r next move)
