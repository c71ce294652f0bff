-- ===== src/Client/Lifecycle/Reached.antt =====
-- Invariants of every reachable client, and what `disconnect` leaves of it.
use ttlock_ble.Base.{ℕ, refl, sym, subst, List, [], Option}
use ttlock_ble.Client.Lifecycle.{
  Lifecycle, new_lifecycle, connect, disconnect, end_command, connects, disconnects, commands,
  drops, task_ends, Reach, here, next, lost_in,
}
use ttlock_ble.KeepAlive.{Meanwhile}
use ttlock_ble.KeepAlive.Single.{
  IsKnown, IsSilent, lost_by_stop, restart-IsKnown, ended-IsKnown, stop-IsSilent, IsSilent-IsKnown,
}
use ttlock_ble.Outcome.{Result, ok, raised}
use ttlock_ble.Transport.Link.{ConnectTurn, DisconnectTurn}
use ttlock_ble.Transport.Link.Released.{
  IsTidy, IsDisconnected, untried, held_client, connect-IsTidy, disconnect-IsDisconnected,
  IsFree-IsTidy,
}

-- The clients of bleak that nothing tried to release are the one that the link holds, and a window
-- that runs is the current one or one of the lost ones.
pub IsOrderly : List ℕ → Lifecycle → Type 0
IsOrderly lost s = IsTidy s.link × IsKnown lost s.keep_alive

-- What a disconnect leaves of the link and of the windows.
pub IsTornDown : List ℕ → List Meanwhile → DisconnectTurn → Lifecycle → Lifecycle → Type 0
IsTornDown lost events turn before after =
    IsDisconnected turn before.link after.link
    × IsSilent (lost_by_stop events before.keep_alive lost) after.keep_alive

pub end_command-IsOrderly :
    (lost : List ℕ) (outcome : Result (Unit {0})) (s : Lifecycle)
    → IsOrderly lost s
    → IsOrderly lost (end_command outcome s)
unfolding end_command IsOrderly
end_command-IsOrderly lost (ok _) s (h, k) = (h, restart-IsKnown lost s.keep_alive k)
end_command-IsOrderly lost (raised e) s h = h

pub disconnect-IsTornDown :
    (lost : List ℕ) (events : List Meanwhile) (turn : DisconnectTurn) (s : Lifecycle)
    → IsOrderly lost s
    → IsTornDown lost events turn s (disconnect events turn s).1
unfolding disconnect IsOrderly IsTornDown
disconnect-IsTornDown lost events turn s (h, k) =
    (disconnect-IsDisconnected turn s.link h, stop-IsSilent events s.keep_alive lost k)

pub connect-IsOrderly :
    (lost : List ℕ) (turn : ConnectTurn) (s : Lifecycle)
    → IsOrderly lost s
    → IsOrderly lost (connect turn s).1
unfolding connect IsOrderly
connect-IsOrderly lost turn s (h, k) = (connect-IsTidy turn s.link h, k)

torn_down-IsOrderly :
    (lost : List ℕ) (events : List Meanwhile) (turn : DisconnectTurn) (s t : Lifecycle)
    → IsTornDown lost events turn s t
    → IsOrderly (lost_by_stop events s.keep_alive lost) t
unfolding IsTornDown IsOrderly IsDisconnected
torn_down-IsOrderly lost events turn s t ((free, leaks), silent) =
    (IsFree-IsTidy t.link free, IsSilent-IsKnown _ t.keep_alive silent)

pub new_lifecycle-IsOrderly :
    (device : Option ℕ) (window : ℕ) → IsOrderly [] (new_lifecycle device window)
unfolding IsOrderly new_lifecycle IsTidy IsKnown untried held_client
new_lifecycle-IsOrderly device window = (refl, λ i r. cc r)

-- However a client was connected, lost and used, the only client of bleak whose release it has not
-- tried is the one that it holds, and each window that runs is the current one or one that a restart
-- created while a disconnect waited for the window before it.
pub Reach-IsOrderly :
    (device : Option ℕ) (window : ℕ) (s : Lifecycle) (r : Reach (new_lifecycle device window) s)
    → IsOrderly (lost_in r) s
unfolding IsOrderly lost_in connect IsTidy
Reach-IsOrderly device window s here = new_lifecycle-IsOrderly device window
Reach-IsOrderly device window s (next {t} r (connects turn e)) =
    subst (IsOrderly (lost_in r)) (sym e)
      (connect-IsOrderly (lost_in r) turn t (Reach-IsOrderly device window t r))
Reach-IsOrderly device window s (next {t} r (disconnects events turn e)) =
    subst (IsOrderly (lost_by_stop events t.keep_alive (lost_in r))) (sym e) (
      torn_down-IsOrderly (lost_in r) events turn t (disconnect events turn t).1
        (disconnect-IsTornDown (lost_in r) events turn t (Reach-IsOrderly device window t r)))
Reach-IsOrderly device window s (next {t} r (commands outcome e)) =
    subst (IsOrderly (lost_in r)) (sym e)
      (end_command-IsOrderly (lost_in r) outcome t (Reach-IsOrderly device window t r))
Reach-IsOrderly device window s (next {t} r (drops e)) =
    subst (IsOrderly (lost_in r)) (sym e) (Reach-IsOrderly device window t r)
Reach-IsOrderly device window s (next {t} r (task_ends i e)) =
    let (h, k) = Reach-IsOrderly device window t r in
    subst (IsOrderly (lost_in r)) (sym e) (h, ended-IsKnown (lost_in r) i t.keep_alive k)

-- However a client was connected, lost and used, `disconnect` leaves it without a client of bleak
-- and without one whose release was not tried; the client that it held has leaked exactly when its
-- release raised. A window that runs afterwards was created by a restart while this or an earlier
-- disconnect waited for the window before it.
pub Reach-disconnect :
    (device : Option ℕ) (window : ℕ) (s : Lifecycle) (events : List Meanwhile)
    (turn : DisconnectTurn) (r : Reach (new_lifecycle device window) s)
    → IsTornDown (lost_in r) events turn s (disconnect events turn s).1
Reach-disconnect device window s events turn r =
    disconnect-IsTornDown (lost_in r) events turn s (Reach-IsOrderly device window s r)
