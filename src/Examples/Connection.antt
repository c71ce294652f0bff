-- ===== src/Examples/Connection.antt =====
-- Tests and applications for the connection, the keep-alive window and their lifecycle.
use ttlock_ble.Base.{◌≡◌, refl, arith, true, false, [], ◌∷◌, List, some, none, All}
use ttlock_ble.Client.Lifecycle.{
  Lifecycle, new_lifecycle, connect, disconnect, end_command, Reach, here, next, connects, commands,
  lost_in,
}
use ttlock_ble.Client.Lifecycle.Reached.{IsOrderly, IsTornDown, Reach-IsOrderly, Reach-disconnect}
use ttlock_ble.KeepAlive.{
  Beat, closed_window, run, running, restarted, stop, new_keep_alive, restart,
}
use ttlock_ble.KeepAlive.Closing.{IsOver, Sleeps, run-IsOver}
use ttlock_ble.Outcome.{ok, raised, tt_lock_error}
use ttlock_ble.Transport.Link.{
  ConnectTurn, DisconnectTurn, Services, ttl_service, ttl_write, ttl_notify, new_link, established,
  notify_started, discover,
}
use ttlock_ble.Transport.Link

abbrev pub failing_teardown : DisconnectTurn
failing_teardown = record { stop_fails = true; release_fails = true }

abbrev services : Services
services = (ttl_service, (ttl_write, 11) ∷ (ttl_notify, 12) ∷ []) ∷ []

-- A first connection: client 1 on a lock with the usual service.
abbrev pub arrival : ConnectTurn
arrival = record {
  disconnecting = failing_teardown;
  searched = ok none;
  established_client = some 1;
  services = services;
  notify_fails = false;
  stays_up = true;
}

connected : Link.connect arrival (new_link (some 5)) ≡ (
  ok tt,
  record {
    device = some 5;
    client = some 1;
    up = true;
    write_char = some 11;
    notify_char = some 12;
    calls = established 1 ∷ notify_started 1 12 ∷ [];
  },
)
unfolding Link.connect Link.is_connected Link.disconnect discover
connected = refl

-- A client that was connected and has unlocked the door.
in_use : Lifecycle
in_use = end_command (ok tt) (connect arrival (new_lifecycle (some 5) 25000)).1

in_use-Reach : Reach (new_lifecycle (some 5) 25000) in_use
unfolding in_use
in_use-Reach = next (next here (connects arrival refl)) (commands (ok tt) refl)

Reach-IsOrderly_example : IsOrderly (lost_in in_use-Reach) in_use
Reach-IsOrderly_example = Reach-IsOrderly (some 5) 25000 in_use in_use-Reach

nothing_lost : lost_in in_use-Reach ≡ []
unfolding lost_in in_use-Reach
nothing_lost = refl

-- A restart comes while the disconnect waits.
Reach-disconnect_example :
    IsTornDown
      (lost_in in_use-Reach)
      (restarted ∷ [])
      failing_teardown
      in_use
      (disconnect (restarted ∷ []) failing_teardown in_use).1
Reach-disconnect_example =
    Reach-disconnect (some 5) 25000 in_use (restarted ∷ []) failing_teardown in_use-Reach

-- Three rounds, of which the last poke is not answered.
abbrev beats : List Beat
beats =
    record { connected = true; asleep = 2000; still_connected = true; poke = ok tt; poking = 30 }
    ∷ record { connected = true; asleep = 2001; still_connected = true; poke = ok tt; poking = 400 }
    ∷ record {
      connected = true;
      asleep = 2000;
      still_connected = true;
      poke = raised tt_lock_error;
      poking = 6000;
    }
    ∷ []

beats-Sleeps : All Sleeps beats
unfolding Sleeps
beats-Sleeps = omega arith

three_pokes : run 5000 100 beats ≡ closed_window 3
unfolding run
three_pokes = refl

run-IsOver_example : IsOver 3 (run 5000 100 beats)
run-IsOver_example = run-IsOver 5000 100 beats beats-Sleeps (omega arith)

-- A restart while `stop` waits leaves a window that runs, and that `stop` has forgotten.
forgotten_window :
    ((stop (restarted ∷ []) (restart (new_keep_alive 25000))).states 1 ≡ running)
    × ((stop (restarted ∷ []) (restart (new_keep_alive 25000))).task ≡ none)
unfolding stop restart
forgotten_window = (refl, refl)

-- A lock without a known service: `connect` raises, and the client of bleak is held all the same.
client_is_held :
    ((Link.connect (record arrival { services = [] }) (new_link (some 5))).0 ≡ raised tt_lock_error)
    × ((Link.connect (record arrival { services = [] }) (new_link (some 5))).1.client ≡ some 1)
unfolding Link.connect Link.is_connected Link.disconnect discover
client_is_held = (refl, refl)
