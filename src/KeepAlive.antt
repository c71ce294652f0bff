-- ===== src/KeepAlive.antt =====
-- ttlock_ble/ble/keep_alive.py: the window that keeps the link open after a command. Times are in
-- milliseconds. The tasks of the event loop are numbered in the order of their creation.
pub mod Single
pub mod Closing
use ttlock_ble.Base.{
  ℕ, zero, suc, ◌+◌, Bool, true, false, not, List, [], ◌∷◌, Option, none, some, ltb, ◌&&◌, ◌==◌,
  if◌then◌else◌,
}
use ttlock_ble.Outcome.{Result, ok, raised, Exn, tt_lock_error}

-- `cancelling` is a task that was told to stop and has not run since.
pub data TaskState : Type 0 where
  finished running cancelling : TaskState

-- `states` is what the event loop knows of each task, and `next` numbers the next one.
pub record KeepAlive : Type 0 where
  pub window : ℕ
  pub task : Option ℕ
  pub states : ℕ → TaskState
  pub next : ℕ

abbrev pub new_keep_alive : ℕ → KeepAlive
new_keep_alive window = record { window = window; task = none; states = λ i. finished; next = 0 }

unfoldable pub set_state : ℕ → TaskState → KeepAlive → KeepAlive
set_state i state k = record k { states = λ j. if j == i then state else k.states j }

-- `task.cancel()`, which a finished task ignores.
unfoldable pub cancel : ℕ → KeepAlive → KeepAlive
unfolding set_state
cancel i k = elim (k.states i) [ finished ↦ k | _ ↦ set_state i cancelling k ]

cancel_prior : Option ℕ → KeepAlive → KeepAlive
unfolding cancel
cancel_prior none k = k
cancel_prior (some i) k = cancel i k

-- `asyncio.create_task(self.run())`
start : KeepAlive → KeepAlive
unfolding set_state
start k = let k' = set_state k.next running k in record k' { task = some k.next; next = k.next + 1 }

unfoldable pub restart : KeepAlive → KeepAlive
unfolding cancel_prior start
restart k = if k.window == 0 then k else start (cancel_prior k.task k)

-- What the event loop does while `stop` awaits the task: a task ends, or another coroutine calls
-- `restart`.
pub data Meanwhile : Type 0 where
  ended : ℕ → Meanwhile
  restarted : Meanwhile

unfoldable pub meanwhile : List Meanwhile → KeepAlive → KeepAlive
unfolding set_state restart
meanwhile [] k = k
meanwhile (ended i ∷ events) k = meanwhile events (set_state i finished k)
meanwhile (restarted ∷ events) k = meanwhile events (restart k)

-- From the `cancel` of `stop` on; the await ends when the task does.
await_stopped : List Meanwhile → ℕ → KeepAlive → KeepAlive
unfolding meanwhile cancel set_state
await_stopped events i k = record (set_state i finished (meanwhile events (cancel i k))) {
  task = none;
}

-- A task that is done needs no stopping.
stop_unless_done : TaskState → List Meanwhile → ℕ → KeepAlive → KeepAlive
unfolding await_stopped
stop_unless_done finished events i k = k
stop_unless_done _ events i k = await_stopped events i k

stop_task : Option ℕ → List Meanwhile → KeepAlive → KeepAlive
unfolding stop_unless_done
stop_task none events k = k
stop_task (some i) events k = stop_unless_done (k.states i) events i k

unfoldable pub stop : List Meanwhile → KeepAlive → KeepAlive
unfolding stop_task
stop events k = stop_task k.task events k

abbrev pub keep_alive_interval : ℕ
keep_alive_interval = 2000

-- One round of the loop of `run`: whether the link stands at its start and after the sleep, how long
-- the sleep and the poke take, and what the poke raises.
pub record Beat : Type 0 where
  pub connected : Bool
  pub asleep : ℕ
  pub still_connected : Bool
  pub poke : Result (Unit {0})
  pub poking : ℕ

-- How a window stands after some rounds, with the count of its pokes: open, closed, or ended by an
-- exception that is no `TTLockError`.
pub data Window : Type 0 where
  open_window closed_window : ℕ → Window
  broken_window : Exn → ℕ → Window

-- What the end of a poke does: the loop goes on, returns, or lets an exception escape.
after_poke : (Unit {0} → Window) → ℕ → Result (Unit {0}) → Window
after_poke more pokes (ok _) = more tt
after_poke more pokes (raised tt_lock_error) = closed_window pokes
after_poke more pokes (raised e) = broken_window e pokes

-- One round, from the test of the loop and the test after the sleep on.
one_round : Bool → Bool → ℕ → (Unit {0} → Window) → Result (Unit {0}) → Window
unfolding after_poke
one_round false still_connected pokes more poke = closed_window pokes
one_round true false pokes more poke = closed_window pokes
one_round true true pokes more poke = after_poke more (pokes + 1) poke

-- The loop of `run` after `pokes` pokes.
unfoldable pub run_rounds : ℕ → ℕ → ℕ → List Beat → Window
unfolding one_round
run_rounds deadline now pokes [] =
    if ltb now deadline then open_window pokes else closed_window pokes
run_rounds deadline now pokes (b ∷ bs) =
    one_round (ltb now deadline && b.connected) b.still_connected pokes
      (λ _. run_rounds deadline (now + b.asleep + b.poking) (pokes + 1) bs) b.poke

unfoldable pub run : ℕ → ℕ → List Beat → Window
unfolding run_rounds
run window now beats = run_rounds (now + window) now 0 beats
