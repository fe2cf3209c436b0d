-- ===== src/Server/Limits.antt =====
-- How many connections and requests there are at a time.
-- The connections that hold a permit of a semaphore, and those that serve a request.
use mathlib.Core.Path.{subst}
use tiny_proxy.Base.{
  Bool-cases, List, Option, [], ap, arith, if◌then◌else◌, inl, inr, length, length-append, none,
  refl, some, ℕ, ◌+◌, ◌<◌, ◌↔◌, ◌∷◌, ◌≡◌, ◌≤◌,
}
use tiny_proxy.Base.Text.{Text}
use tiny_proxy.Config.Models.{Config}
use tiny_proxy.Server.Connections.{
  Connection, Event, Phase, Running, Semaphore, acquire, begin_request, drop_task, end_request,
  end_task, find_task, handshaking, idle, in_request, is_serving, new_proxy, resize, run, set_idle,
  set_phase, spawn_connection, update,
}
use tiny_proxy.Server.Moves.{
  Moves, admitted, begun, ended, finished, rejected, resized, run-invariant, shaken, unshaken,
  updated,
}
use tiny_proxy.Server.Tasks.{
  acquire-none_iff, acquire_taken, find_task_named, give_back_more, length-give_back, one_at,
  permits_at, permits_at-append, total, total-drop_task, total-set_phase,
}

unfoldable pub held : ℕ → List Connection → ℕ
unfolding total
held i xs = total (λ x. one_at x.semaphore_of i) xs

unfoldable pub in_flight : List Connection → ℕ
unfolding total
in_flight xs = total (λ x. if is_serving x.phase then 1 else 0) xs

held-set_phase :
    (i t : ℕ) (p : Phase) (xs : List Connection) (x : Connection)
    → find_task t xs ≡ some x
    → held i (set_phase t p xs) ≡ held i xs
unfolding held
held-set_phase i t p xs x e =
    omega (arith, total-set_phase (λ x. one_at x.semaphore_of i) t p xs x e)

abbrev weight : Phase → ℕ
weight p = if is_serving p then 1 else 0

in_flight-set_phase :
    (t : ℕ) (p : Phase) (xs : List Connection) (x : Connection) (q : Phase)
    → find_task t xs ≡ some x
    → x.phase ≡ q
    → in_flight (set_phase t p xs) + weight q ≡ in_flight xs + weight p
unfolding in_flight
in_flight-set_phase t p xs x q e f =
    subst (λ q. in_flight (set_phase t p xs) + weight q ≡ in_flight xs + weight p) f
      (total-set_phase (λ x. weight x.phase) t p xs x e)

in_flight-drop_task :
    (t : ℕ) (xs : List Connection) (x : Connection)
    → find_task t xs ≡ some x
    → in_flight xs ≡ weight x.phase + in_flight (drop_task t xs)
unfolding in_flight
in_flight-drop_task t xs x e = total-drop_task (λ x. weight x.phase) t xs x e

module _ {S : Type 0} ⦃sem : Semaphore S⦄ where
  -- The permits of a semaphore, free or held.
  unfoldable pub budget : ℕ → Running S → ℕ
  budget i r = permits_at i r.semaphores + held i r.connections

  -- A semaphore of the store, with so many permits.
  Keeps : ℕ → ℕ → Running S → Type 0
  Keeps i n r = (budget i r ≡ n) × (i < length r.semaphores)

  end_task-Keeps :
      (i n t : ℕ) (x : Connection) (r : Running S)
      → find_task t r.connections ≡ some x
      → Keeps i n r
      → Keeps i n (end_task x r)
  unfolding end_task Keeps budget held
  end_task-Keeps i n t x r e (b, h) =
      let named = find_task_named t r.connections x e in
      let same : drop_task x.task r.connections ≡ drop_task t r.connections =
        ap (λ u. drop_task u r.connections) named in
      (
        omega (
          arith,
          b,
          give_back_more x.semaphore_of r.semaphores i h,
          ap (total (λ x. one_at x.semaphore_of i)) same,
          total-drop_task (λ x. one_at x.semaphore_of i) t r.connections x e,
        ),
        omega (arith, h, length-give_back x.semaphore_of r.semaphores),
      )

  Moves-Keeps :
      (i n : ℕ) (e : Event) (r next : Running S) → Moves r e next → Keeps i n r → Keeps i n next
  unfolding Keeps budget spawn_connection set_idle begin_request end_request update held total
      resize
  Moves-Keeps i n e r next (rejected t j tls fresh out) k = k
  Moves-Keeps i n e r next (admitted t j tls store fresh got) (b, h) =
      let (fewer, same) = acquire_taken j r.semaphores store i got in
      (omega (arith, fewer, b), omega (arith, same, h))
  Moves-Keeps i n e r next (shaken t x found p) (b, h) =
      (omega (arith, b, held-set_phase i t idle r.connections x found), h)
  Moves-Keeps i n e r next (unshaken t x found p) k = end_task-Keeps i n t x r found k
  Moves-Keeps i n e r next (begun t x found p) (b, h) =
      (omega (arith, b, held-set_phase i t (in_request r.config) r.connections x found), h)
  Moves-Keeps i n e r next (finished t x config found p) (b, h) =
      (omega (arith, b, held-set_phase i t idle r.connections x found), h)
  Moves-Keeps i n e r next (ended t x found) k = end_task-Keeps i n t x r found k
  Moves-Keeps i n e r next (updated config) k = k
  Moves-Keeps i n e r next (resized max) (b, h) = (
    omega (arith, b, permits_at-append i r.semaphores (sem.new_semaphore max ∷ []) h),
    omega (arith, h, length-append r.semaphores (sem.new_semaphore max ∷ [])),
  )

  -- The gauge counts the connections that serve a request.
  Counted : Running S → Type 0
  Counted r = r.active_requests ≡ in_flight r.connections

  end_task-Counted :
      (t : ℕ) (x : Connection) (r : Running S)
      → find_task t r.connections ≡ some x
      → Counted r
      → Counted (end_task x r)
  unfolding end_task Counted
  end_task-Counted t x r e h =
      let named = find_task_named t r.connections x e in
      rw named (ground (arith, h, in_flight-drop_task t r.connections x e))

  Moves-Counted : (e : Event) (r next : Running S) → Moves r e next → Counted r → Counted next
  unfolding Counted spawn_connection set_idle begin_request end_request update in_flight total
      resize is_serving
  Moves-Counted e r next (rejected t j tls fresh out) h = h
  Moves-Counted e r next (admitted t j tls store fresh got) h = elim (Bool-cases tls) [
    | inl secure ↦ rw secure (omega (arith, h))
    | inr plain ↦ rw plain (omega (arith, h))
  ]
  Moves-Counted e r next (shaken t x found p) h =
      omega (arith, h, in_flight-set_phase t idle r.connections x handshaking found p)
  Moves-Counted e r next (unshaken t x found p) h = end_task-Counted t x r found h
  Moves-Counted e r next (begun t x found p) h =
      omega (arith, h, in_flight-set_phase t (in_request r.config) r.connections x idle found p)
  Moves-Counted e r next (finished t x config found p) h =
      omega (arith, h, in_flight-set_phase t idle r.connections x (in_request config) found p)
  Moves-Counted e r next (ended t x found) h = end_task-Counted t x r found h
  Moves-Counted e r next (updated config) h = h
  Moves-Counted e r next (resized max) h = h

  -- Whatever happens, changes of the limit included: the connections that hold a permit of a
  -- semaphore are at most the permits, free or held, that it had before, and a further connection
  -- to a listener with that semaphore is rejected exactly if there are that many.
  pub run-limited :
      (i : ℕ) (es : List Event) (r last : Running S)
      → i < length r.semaphores
      → run es r ≡ some last
      → (held i last.connections ≤ budget i r)
        × ((acquire i last.semaphores ≡ none) ↔ (held i last.connections ≡ budget i r))
  unfolding Keeps budget
  run-limited i es r last h f =
      let (sum, _) =
        run-invariant (Keeps i (budget i r)) (Moves-Keeps i (budget i r)) es r last f (refl, h) in
      let out = acquire-none_iff i last.semaphores in
      (omega (arith, sum), (λ e. omega (arith, sum, out.0 e), λ e. out.1 (omega (arith, sum, e))))

  -- From the start of the proxy on, the gauge of active requests is the number of connections that
  -- serve a request.
  pub run-Counted :
      (config : Config) (env : Option Text) (num_cpus : ℕ) (es : List Event) (last : Running S)
      → run es (new_proxy config env num_cpus) ≡ some last
      → last.active_requests ≡ in_flight last.connections
  unfolding Counted new_proxy in_flight total
  run-Counted config env num_cpus es last f =
      run-invariant Counted Moves-Counted es (new_proxy config env num_cpus) last f refl
