-- ===== src/Server/Tasks.antt =====
-- Lists of connections, and the store of semaphores, as the events change them.
-- A sum over the connections.
use mathlib.Core.Path.{subst}
use tiny_proxy.Base.{
  ==_iff, Bool-cases, List, Option-cases, [], ap, arith, false, if◌then◌else◌, inl, inr, length,
  none, refl, some, suc, sym, zero, ℕ, ◌++◌, ◌+◌, ◌<◌, ◌==◌, ◌↔◌, ◌∙◌, ◌∷◌, ◌≡◌,
}
use tiny_proxy.Server.Connections.{
  Connection, Phase, Semaphore, acquire, drop_task, find_task, give_back, set_phase,
}

unfoldable pub total : (Connection → ℕ) → List Connection → ℕ
total w [] = 0
total w (x ∷ xs) = w x + total w xs

pub total-drop_task :
    (w : Connection → ℕ) (t : ℕ) (xs : List Connection) (x : Connection)
    → find_task t xs ≡ some x
    → total w xs ≡ w x + total w (drop_task t xs)
unfolding total find_task drop_task
total-drop_task w t [] x e = cc
total-drop_task w t (y ∷ xs) x e = elim (Bool-cases (y.task == t)) [
  | inl same ↦
      let one : y ≡ x = cc (rw (same, find_task) at e) in rw same (ap (λ z. w z + total w xs) one)
  | inr other ↦ rw other (omega (arith, total-drop_task w t xs x (rw (other, find_task) at e)))
]

pub total-set_phase :
    (w : Connection → ℕ) (t : ℕ) (p : Phase) (xs : List Connection) (x : Connection)
    → find_task t xs ≡ some x
    → total w (set_phase t p xs) + w x ≡ total w xs + w (record x { phase = p })
unfolding total find_task set_phase
total-set_phase w t p [] x e = cc
total-set_phase w t p (y ∷ xs) x e = elim (Bool-cases (y.task == t)) [
  | inl same ↦
      let one : y ≡ x = cc (rw (same, find_task) at e) in
      rw same (
        subst
          (λ z.
            w (record y { phase = p }) + total w xs + w z
            ≡ w y + total w xs + w (record z { phase = p }))
          one (omega arith))
  | inr other ↦ rw other (omega (arith, total-set_phase w t p xs x (rw (other, find_task) at e)))
]

pub find_task_named :
    (t : ℕ) (xs : List Connection) (x : Connection) → find_task t xs ≡ some x → x.task ≡ t
unfolding find_task
find_task_named t [] x e = cc
find_task_named t (y ∷ xs) x e = elim (Bool-cases (y.task == t)) [
  | inl same ↦
      let one : y ≡ x = cc (rw (same, find_task) at e) in
      ap (λ (z : Connection). z.task) (sym one) ∙ (==_iff y.task t).0 same
  | inr other ↦ find_task_named t xs x (rw (other, find_task) at e)
]

pub find_task-set_phase :
    (t : ℕ) (p : Phase) (xs : List Connection) (x : Connection)
    → find_task t xs ≡ some x
    → find_task t (set_phase t p xs) ≡ some (record x { phase = p })
unfolding find_task set_phase
find_task-set_phase t p [] x e = cc
find_task-set_phase t p (y ∷ xs) x e = elim (Bool-cases (y.task == t)) [
  | inl same ↦
      let one : y ≡ x = cc (rw (same, find_task) at e) in
      rw same (rw same (ap (λ (z : Connection). some (record z { phase = p })) one))
  | inr other ↦ rw other (rw other (find_task-set_phase t p xs x (rw (other, find_task) at e)))
]

pub find_task-set_phase_other :
    (t u : ℕ) (p : Phase) (xs : List Connection)
    → (u == t) ≡ false
    → find_task t (set_phase u p xs) ≡ find_task t xs
unfolding find_task set_phase
find_task-set_phase_other t u p [] e = refl
find_task-set_phase_other t u p (y ∷ xs) e = ground (arith, find_task-set_phase_other t u p xs e)

pub find_task-drop_task_other :
    (t u : ℕ) (xs : List Connection)
    → (u == t) ≡ false
    → find_task t (drop_task u xs) ≡ find_task t xs
unfolding find_task drop_task
find_task-drop_task_other t u [] e = refl
find_task-drop_task_other t u (y ∷ xs) e = ground (arith, find_task-drop_task_other t u xs e)

abbrev pub one_at : ℕ → ℕ → ℕ
one_at j i = if j == i then 1 else 0

module _ {S : Type 0} ⦃sem : Semaphore S⦄ where
  -- The free permits of a semaphore of the store.
  unfoldable pub permits_at : ℕ → List S → ℕ
  permits_at i [] = 0
  permits_at zero (s ∷ store) = sem.available_permits s
  permits_at (suc i) (s ∷ store) = permits_at i store

  pub acquire_taken :
      (j : ℕ) (store next : List S) (i : ℕ)
      → acquire j store ≡ some next
      → (permits_at i store ≡ permits_at i next + one_at j i) × (length next ≡ length store)
  unfolding acquire permits_at
  acquire_taken j [] next i e = cc
  acquire_taken zero (s ∷ store) next i e = elim (Option-cases (sem.try_acquire_owned s)) [
    | inl out ↦ cc (rw (out, acquire) at e)
    | inr (t, got) ↦
        let same : t ∷ store ≡ next = cc (rw (got, acquire) at e) in
        subst
          (λ n.
            (permits_at i (s ∷ store) ≡ permits_at i n + one_at 0 i)
            × (length n ≡ suc (length store)))
          same (taken i t got, refl)
  ]
    where
      taken :
          (i : ℕ) (t : S)
          → sem.try_acquire_owned s ≡ some t
          → permits_at i (s ∷ store) ≡ permits_at i (t ∷ store) + one_at 0 i
      taken zero t got = omega (arith, sem.try_acquire_owned-some s t got)
      taken (suc i) t got = ground arith
  acquire_taken (suc j) (s ∷ store) next i e = elim (Option-cases (acquire j store)) [
    | inl out ↦ cc (rw (out, acquire) at e)
    | inr (rest, got) ↦
        let same : s ∷ rest ≡ next = cc (rw (got, acquire) at e) in
        subst
          (λ n.
            (permits_at i (s ∷ store) ≡ permits_at i n + one_at (suc j) i)
            × (length n ≡ suc (length store)))
          same
          (
            further i rest (λ k. (acquire_taken j store rest k got).0),
            ap suc (acquire_taken j store rest 0 got).1,
          )
  ]
    where
      further :
          (i : ℕ) (rest : List S)
          → ((k : ℕ) → permits_at k store ≡ permits_at k rest + one_at j k)
          → permits_at i (s ∷ store) ≡ permits_at i (s ∷ rest) + one_at (suc j) i
      further zero rest under = ground arith
      further (suc i) rest under = ground (arith, under i)

  pub give_back_more :
      (j : ℕ) (store : List S) (i : ℕ)
      → i < length store
      → permits_at i (give_back j store) ≡ permits_at i store + one_at j i
  unfolding give_back permits_at
  give_back_more j [] i h = absurd (omega (arith, h))
  give_back_more zero (s ∷ store) zero h = omega (arith, sem.available_permits-release s)
  give_back_more zero (s ∷ store) (suc i) h = ground arith
  give_back_more (suc j) (s ∷ store) zero h = ground arith
  give_back_more (suc j) (s ∷ store) (suc i) h =
      ground (arith, give_back_more j store i (omega (arith, h)))

  pub length-give_back : (j : ℕ) (store : List S) → length (give_back j store) ≡ length store
  unfolding give_back
  length-give_back j [] = refl
  length-give_back zero (s ∷ store) = refl
  length-give_back (suc j) (s ∷ store) = ap suc (length-give_back j store)

  pub permits_at-append :
      (i : ℕ) (store more : List S)
      → i < length store
      → permits_at i (store ++ more) ≡ permits_at i store
  unfolding permits_at
  permits_at-append i [] more h = absurd (omega (arith, h))
  permits_at-append zero (s ∷ store) more h = refl
  permits_at-append (suc i) (s ∷ store) more h = permits_at-append i store more (omega (arith, h))

  pub acquire-none_iff :
      (i : ℕ) (store : List S) → (acquire i store ≡ none) ↔ (permits_at i store ≡ 0)
  unfolding acquire permits_at
  acquire-none_iff i [] = (λ e. refl, λ e. refl)
  acquire-none_iff zero (s ∷ store) = ground (arith, sem.try_acquire_owned-none s)
  acquire-none_iff (suc i) (s ∷ store) = ground (arith, acquire-none_iff i store)
