-- ===== src/Cli/Runs.antt =====
-- The runs of ttlock_ble/cli.py against a lock: `async with TTLockClient(key) as c: return await c....`
pub mod Released
use ttlock_ble.Base.{ℕ, Bool, true, false, List, Option}
use ttlock_ble.Client.Act.{Act, Session}
use ttlock_ble.Client.Control.{unlock, lock, query_state}
use ttlock_ble.Client.Core.{Client}
use ttlock_ble.Client.Lifecycle.{Lifecycle, connect, disconnect, end_command}
use ttlock_ble.Client.Lists.{get_passcodes, get_fingerprints, get_cards}
use ttlock_ble.Client.Settings.{
  get_auto_lock_time, set_auto_lock_time, get_auto_lock_limits, add_passcode, delete_passcode,
  clear_passcodes, get_lock_sound, set_lock_sound, set_lock_volume, get_device_features,
  DeviceProperties, get_device_properties,
}
use ttlock_ble.Commands.AutoLock.{AutoLockLimits}
use ttlock_ble.Commands.Card.{CardEntry}
use ttlock_ble.Commands.Control.{LockState}
use ttlock_ble.Commands.DeviceFeature.{DeviceFeatures}
use ttlock_ble.Commands.Fingerprint.{FingerprintEntry}
use ttlock_ble.Commands.LockSound.{LockSound}
use ttlock_ble.Commands.PasscodeList.{PasscodeEntry}
use ttlock_ble.KeepAlive.{Meanwhile}
use ttlock_ble.Outcome.{Result, ok, raised}
use ttlock_ble.Text.{Text, ℤ, codes}
use ttlock_ble.Transport.Link.{ConnectTurn, DisconnectTurn}

-- The connection, and the exchanges over it.
pub record Run : Type 0 where
  pub life : Lifecycle
  pub session : Session

-- What bleak and the event loop do on entry and on exit.
pub record Surroundings : Type 0 where
  pub arriving : ConnectTurn
  pub events : List Meanwhile
  pub leaving : DisconnectTurn

-- Whether a method restarts the keep-alive window at its end.
pub data Holding : Type 0 where
  holds passes : Holding

erase : {A : Type 0} → Result A → Result (Unit {0})
erase (ok a) = ok tt
erase (raised e) = raised e

set_linked : Bool → Session → Session
set_linked linked s = record s { transport = record s.transport { linked = linked } }

end_method : {A : Type 0} → Holding → Result A → Lifecycle → Lifecycle
unfolding erase end_command
end_method holds r life = end_command (erase r) life
end_method passes r life = life

-- `__aexit__`: what it raises takes the place of the outcome.
exit_with : {A : Type 0} → Result A → Session → Result (Unit {0}) × Lifecycle → Result A × Run
unfolding set_linked
exit_with r s (ok _, life) = (r, record { life = life; session = set_linked false s })
exit_with r s (raised e, life) = (raised e, record { life = life; session = set_linked false s })

leave : {A : Type 0} → Surroundings → Holding → Result A × Session → Lifecycle → Result A × Run
unfolding exit_with end_method
leave around holding (r, s) life =
    exit_with r s (disconnect around.events around.leaving (end_method holding r life))

-- After `__aenter__`, which leaves no `__aexit__` to run when it raises.
entered :
    {A : Type 0}
    → Surroundings
    → Holding
    → Act A
    → Session
    → Result (Unit {0}) × Lifecycle
    → Result A × Run
unfolding leave set_linked
entered around holding method s (raised e, life) = (raised e, record { life = life; session = s })
entered around holding method s (ok _, life) =
    leave around holding (method (set_linked true s)) life

unfoldable pub with_client : {A : Type 0} → Surroundings → Holding → Act A → Run → Result A × Run
unfolding entered
with_client around holding method r =
    entered around holding method r.session (connect around.arriving r.life)

module _ (around : Surroundings) (c : Client) where
  unfoldable pub run_unlock : Run → Result (Unit {0}) × Run
  unfolding with_client
  run_unlock = with_client around holds (unlock c)

  unfoldable pub run_lock : Run → Result (Unit {0}) × Run
  unfolding with_client
  run_lock = with_client around holds (lock c)

  run_state : Run → Result (Option LockState × Option ℕ) × Run
  unfolding with_client
  run_state = with_client around passes (query_state c)

  run_sound : Bool → Run → Result (Unit {0}) × Run
  unfolding with_client
  run_sound enabled = with_client around passes (set_lock_sound c enabled)

  run_volume : ℕ → Run → Result (Unit {0}) × Run
  unfolding with_client
  run_volume level = with_client around passes (set_lock_volume c level)

  run_get_sound : Run → Result LockSound × Run
  unfolding with_client
  run_get_sound = with_client around passes (get_lock_sound c)

  run_features : Run → Result DeviceFeatures × Run
  unfolding with_client
  run_features = with_client around passes (get_device_features c)

  run_get_device_properties : Run → Result DeviceProperties × Run
  unfolding with_client
  run_get_device_properties = with_client around passes (get_device_properties c)

  run_add_passcode : Text → Run → Result (Unit {0}) × Run
  unfolding with_client
  run_add_passcode code =
      with_client around passes (add_passcode c code 1 (codes "0001311400") (codes "9912311400"))

  run_delete_passcode : Text → Run → Result (Unit {0}) × Run
  unfolding with_client
  run_delete_passcode code = with_client around passes (delete_passcode c code 1)

  run_clear_passcodes : Run → Result (Unit {0}) × Run
  unfolding with_client
  run_clear_passcodes = with_client around passes (clear_passcodes c)

  run_get_passcodes : Run → Result (List PasscodeEntry) × Run
  unfolding with_client
  run_get_passcodes = with_client around passes (get_passcodes c)

  run_get_auto_lock : Run → Result ℤ × Run
  unfolding with_client
  run_get_auto_lock = with_client around passes (get_auto_lock_time c)

  run_set_auto_lock : ℤ → Run → Result (Unit {0}) × Run
  unfolding with_client
  run_set_auto_lock seconds = with_client around passes (set_auto_lock_time c seconds)

  run_get_auto_lock_limits : Run → Result AutoLockLimits × Run
  unfolding with_client
  run_get_auto_lock_limits = with_client around passes (get_auto_lock_limits c)

  run_get_fingerprints : Run → Result (List FingerprintEntry) × Run
  unfolding with_client
  run_get_fingerprints = with_client around passes (get_fingerprints c)

  run_get_cards : Run → Result (List CardEntry) × Run
  unfolding with_client
  run_get_cards = with_client around passes (get_cards c)
