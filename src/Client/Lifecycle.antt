-- ===== src/Client/Lifecycle.antt =====
-- The connection and the keep-alive window of a `TTLockClient`, over all that it does and all that
-- happens to it: `connect`, `disconnect`, and the restart that ends `unlock` and `lock`.
pub mod Reached
use ttlock_ble.Base.{ℕ, ◌≡◌, false, List, [], Option}
use ttlock_ble.KeepAlive.{KeepAlive, new_keep_alive, finished, set_state, restart, Meanwhile, stop}
use ttlock_ble.KeepAlive.Single.{lost_by_stop}
use ttlock_ble.Outcome.{Result, ok, raised}
use ttlock_ble.Transport.Link.{Link, new_link, ConnectTurn, DisconnectTurn}
use ttlock_ble.Transport.Link

pub record Lifecycle : Type 0 where
  pub link : Link
  pub keep_alive : KeepAlive

-- A client before its first `connect`: the device it was given, and `keep_alive_after_command`.
unfoldable pub new_lifecycle : Option ℕ → ℕ → Lifecycle
new_lifecycle device window = record { link = new_link device; keep_alive = new_keep_alive window }

unfoldable pub connect : ConnectTurn → Lifecycle → Result (Unit {0}) × Lifecycle
connect turn s = let (r, l) = Link.connect turn s.link in (r, record s { link = l })

-- `disconnect`; `events` come while the window is stopped.
unfoldable pub disconnect :
    List Meanwhile → DisconnectTurn → Lifecycle → Result (Unit {0}) × Lifecycle
disconnect events turn s =
    let (r, l) = Link.disconnect turn s.link in
    (r, record { link = l; keep_alive = stop events s.keep_alive })

-- The end of `unlock` and of `lock`: the window is restarted, unless the command raised.
unfoldable pub end_command : Result (Unit {0}) → Lifecycle → Lifecycle
end_command (ok _) s = record s { keep_alive = restart s.keep_alive }
end_command (raised e) s = s

-- What happens to a client: its own operations, the loss of the link, and the end of a task. Commands
-- of other coroutines may restart the window while `disconnect` waits for it to stop.
pub data Step (s t : Lifecycle) : Type 0 where
  connects : (turn : ConnectTurn) → t ≡ (connect turn s).1 → Step s t
  disconnects :
      (events : List Meanwhile) (turn : DisconnectTurn)
      → t ≡ (disconnect events turn s).1
      → Step s t
  commands : (outcome : Result (Unit {0})) → t ≡ end_command outcome s → Step s t
  drops : t ≡ record s { link = record s.link { up = false } } → Step s t
  task_ends : (i : ℕ) → t ≡ record s { keep_alive = set_state i finished s.keep_alive } → Step s t

pub data Reach (s : Lifecycle) : Lifecycle → Type 0 where
  here : Reach s s
  next : {t u : Lifecycle} → Reach s t → Step t u → Reach s u

-- The windows that the disconnects on the way have forgotten.
unfoldable pub lost_in : {s t : Lifecycle} → Reach s t → List ℕ
unfolding lost_by_stop
lost_in here = []
lost_in (next {t} r (disconnects events turn e)) = lost_by_stop events t.keep_alive (lost_in r)
lost_in (next r (connects turn e)) = lost_in r
lost_in (next r (commands outcome e)) = lost_in r
lost_in (next r (drops e)) = lost_in r
lost_in (next r (task_ends i e)) = lost_in r
