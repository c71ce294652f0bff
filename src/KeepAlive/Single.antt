-- ===== src/KeepAlive/Single.antt =====
-- The windows that run: the one that the keep-alive knows, and those that it has forgotten.
use ttlock_ble.Base.{
  ◌⊎◌, ℕ, ◌≡◌, ◌≢◌, refl, sym, ap, arith, Bool, true, false, Bool-cases, List, [], ◌∷◌, Option,
  none, some, ◌==◌, ==_iff, if◌then◌else◌, inl, inr,
}
use ttlock_ble.KeepAlive.{
  KeepAlive, TaskState, finished, running, cancelling, set_state, cancel, cancel_prior, start,
  restart, Meanwhile, ended, restarted, meanwhile, await_stopped, stop_unless_done, stop_task, stop,
}

unfoldable pub IsAmong : ℕ → List ℕ → Type 0
IsAmong i [] = ⊥
IsAmong i (j ∷ js) = (i ≡ j) ⊎ IsAmong i js

-- A task that runs is the current one, or one of those that were lost.
unfoldable pub IsKnown : List ℕ → KeepAlive → Type 0
IsKnown lost k = (i : ℕ) → k.states i ≡ running → (k.task ≡ some i) ⊎ IsAmong i lost

-- No task runs but those that were lost.
unfoldable pub IsSilent : List ℕ → KeepAlive → Type 0
IsSilent lost k = (i : ℕ) → k.states i ≡ running → IsAmong i lost

-- The tasks that a stop forgets: those that a restart creates while it waits.
unfoldable pub forgotten : List Meanwhile → KeepAlive → List ℕ → List ℕ
forgotten [] k lost = lost
forgotten (ended i ∷ events) k lost = forgotten events (set_state i finished k) lost
forgotten (restarted ∷ events) k lost = forgotten events (restart k) (k.next ∷ lost)

unfoldable pub forgotten_unless_done : TaskState → List Meanwhile → ℕ → KeepAlive → List ℕ → List ℕ
unfolding forgotten
forgotten_unless_done finished events i k lost = lost
forgotten_unless_done _ events i k lost = forgotten events (cancel i k) lost

-- With the tasks that were lost before.
unfoldable pub lost_by_stop : List Meanwhile → KeepAlive → List ℕ → List ℕ
unfolding forgotten_unless_done
lost_by_stop events k lost = elim k.task [
  | none ↦ lost
  | some i ↦ forgotten_unless_done (k.states i) events i k lost
]

set_state-running :
    (i j : ℕ) (state : TaskState) (k : KeepAlive)
    → state ≢ running
    → (set_state i state k).states j ≡ running
    → (k.states j ≡ running) × (j ≢ i)
unfolding set_state
set_state-running i j state k not_running h = at (j == i) refl h
  where
    at :
        (b : Bool)
        → (j == i) ≡ b
        → (if b then state else k.states j) ≡ running
        → (k.states j ≡ running) × (j ≢ i)
    at true e h = absurd (not_running h)
    at false e h = (h, ground (arith, e))

cancel-running :
    (i j : ℕ) (k : KeepAlive) → (cancel i k).states j ≡ running → (k.states j ≡ running) × (j ≢ i)
unfolding cancel
cancel-running i j k h = at (k.states i) refl h
  where
    at :
        (state : TaskState)
        → k.states i ≡ state
        → (elim state as (λ s. KeepAlive) [ finished ↦ k | _ ↦ set_state i cancelling k ]).states j
          ≡ running
        → (k.states j ≡ running) × (j ≢ i)
    at finished e h = (h, λ same. cc (h, same, e))
    at running e h = set_state-running i j cancelling k (λ p. cc p) h
    at cancelling e h = set_state-running i j cancelling k (λ p. cc p) h

module _ (lost : List ℕ) where
  cancel_prior-IsSilent :
      (task : Option ℕ) (k : KeepAlive)
      → ((i : ℕ) → k.states i ≡ running → (task ≡ some i) ⊎ IsAmong i lost)
      → IsSilent lost (cancel_prior task k)
  unfolding cancel_prior IsSilent
  cancel_prior-IsSilent none k h i r = elim (h i r) [ inl e ↦ cc e | inr m ↦ m ]
  cancel_prior-IsSilent (some c) k h i r =
      let (was_running, other) = cancel-running c i k r in
      elim (h i was_running) [ inl e ↦ absurd (other (cc e)) | inr m ↦ m ]

  start-IsKnown : (k : KeepAlive) → IsSilent lost k → IsKnown lost (start k)
  unfolding start set_state IsKnown IsSilent
  start-IsKnown k h i r = at (i == k.next) refl r
    where
      at :
          (b : Bool)
          → (i == k.next) ≡ b
          → (if b then running else k.states i) ≡ running
          → (some k.next ≡ some i) ⊎ IsAmong i lost
      at true e p = inl (ap some (sym ((==_iff i k.next).0 e)))
      at false e p = inr (h i p)

  pub restart-IsKnown : (k : KeepAlive) → IsKnown lost k → IsKnown lost (restart k)
  unfolding restart IsKnown
  restart-IsKnown k h = elim (Bool-cases (k.window == 0)) [
    | inl e ↦ rw e h
    | inr e ↦ rw e (start-IsKnown (cancel_prior k.task k) (cancel_prior-IsSilent k.task k h))
  ]

  -- A task that ends leaves the others as they are.
  pub ended-IsKnown :
      (i : ℕ) (k : KeepAlive) → IsKnown lost k → IsKnown lost (set_state i finished k)
  unfolding IsKnown set_state
  ended-IsKnown i k h j r = h j (set_state-running i j finished k (λ p. cc p) r).0

  ended-IsSilent :
      (i : ℕ) (k : KeepAlive) → IsSilent lost k → IsSilent lost (set_state i finished k)
  unfolding IsSilent set_state
  ended-IsSilent i k h j r = h j (set_state-running i j finished k (λ p. cc p) r).0

  pub IsSilent-IsKnown : (k : KeepAlive) → IsSilent lost k → IsKnown lost k
  unfolding IsSilent IsKnown
  IsSilent-IsKnown k h i r = inr (h i r)

cancel_prior-next : (task : Option ℕ) (k : KeepAlive) → (cancel_prior task k).next ≡ k.next
unfolding cancel_prior cancel set_state
cancel_prior-next none k = refl
cancel_prior-next (some i) k = at (k.states i)
  where
    at :
        (state : TaskState)
        → (elim state as (λ s. KeepAlive) [ finished ↦ k | _ ↦ set_state i cancelling k ]).next
          ≡ k.next
    at finished = refl
    at running = refl
    at cancelling = refl

-- A restart in a silence runs no task but the one that it creates.
restart-IsSilent :
    (lost : List ℕ) (k : KeepAlive) → IsSilent lost k → IsSilent (k.next ∷ lost) (restart k)
unfolding restart IsSilent IsAmong IsKnown start
restart-IsSilent lost k h = elim (Bool-cases (k.window == 0)) [
  | inl e ↦ rw e (λ i r. inr (h i r))
  | inr e ↦ rw e (λ i r.
      elim (start-IsKnown lost (cancel_prior k.task k)
        (cancel_prior-IsSilent lost k.task k (λ j q. inr (h j q))) i r) [
          | inl same ↦ let n = cancel_prior-next k.task k in inl (cc (same, n))
          | inr m ↦ inr m
        ])
]

meanwhile-IsSilent :
    (events : List Meanwhile) (k : KeepAlive) (lost : List ℕ)
    → IsSilent lost k
    → IsSilent (forgotten events k lost) (meanwhile events k)
unfolding meanwhile forgotten
meanwhile-IsSilent [] k lost h = h
meanwhile-IsSilent (ended i ∷ events) k lost h =
    meanwhile-IsSilent events (set_state i finished k) lost (ended-IsSilent lost i k h)
meanwhile-IsSilent (restarted ∷ events) k lost h =
    meanwhile-IsSilent events (restart k) (k.next ∷ lost) (restart-IsSilent lost k h)

await_stopped-IsSilent :
    (events : List Meanwhile) (i : ℕ) (k : KeepAlive) (lost : List ℕ)
    → IsSilent lost (cancel i k)
    → IsSilent (forgotten events (cancel i k) lost) (await_stopped events i k)
unfolding await_stopped IsSilent
await_stopped-IsSilent events i k lost h =
    ended-IsSilent (forgotten events (cancel i k) lost) i (meanwhile events (cancel i k))
      (meanwhile-IsSilent events (cancel i k) lost h)

stop_unless_done-IsSilent :
    (state : TaskState) (events : List Meanwhile) (i : ℕ) (k : KeepAlive) (lost : List ℕ)
    → k.states i ≡ state
    → ((j : ℕ) → k.states j ≡ running → (some i ≡ some j) ⊎ IsAmong j lost)
    → IsSilent (forgotten_unless_done state events i k lost) (stop_unless_done state events i k)
unfolding stop_unless_done IsSilent forgotten_unless_done cancel_prior
stop_unless_done-IsSilent finished events i k lost e h =
    λ j r. elim (h j r) [ inl same ↦ cc (same, r, e) | inr m ↦ m ]
stop_unless_done-IsSilent running events i k lost e h =
    await_stopped-IsSilent events i k lost (cancel_prior-IsSilent lost (some i) k h)
stop_unless_done-IsSilent cancelling events i k lost e h =
    await_stopped-IsSilent events i k lost (cancel_prior-IsSilent lost (some i) k h)

-- After `stop` no window runs but those lost before and those that a restart created meanwhile.
pub stop-IsSilent :
    (events : List Meanwhile) (k : KeepAlive) (lost : List ℕ)
    → IsKnown lost k
    → IsSilent (lost_by_stop events k lost) (stop events k)
unfolding stop stop_task IsKnown IsSilent lost_by_stop
stop-IsSilent events k lost h = at k.task h
  where
    at :
        (task : Option ℕ)
        → ((j : ℕ) → k.states j ≡ running → (task ≡ some j) ⊎ IsAmong j lost)
        → IsSilent
            (elim task as (λ _. List ℕ) [
              | none ↦ lost
              | some i ↦ forgotten_unless_done (k.states i) events i k lost
            ])
            (stop_task task events k)
    at none known = λ j r. elim (known j r) [ inl e ↦ cc e | inr m ↦ m ]
    at (some i) known = stop_unless_done-IsSilent (k.states i) events i k lost refl known
