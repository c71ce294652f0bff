-- ===== src/Client/Control.antt =====
-- The bolt, the state query and the clock of `TTLockClient`.
use ttlock_ble.Base.{ℕ, Option}
use ttlock_ble.Client.Act.{Act, ◌>>=◌, ◌>>◌, pure, lift, fold}
use ttlock_ble.Client.Core.{
  Client, round_trip, exchange_command, require_success, check_user_time, admin_handshake,
  control_lock,
}
use ttlock_ble.Commands.Clock.{
  payload_time_calibrate, payload_get_lock_time, parse_get_lock_time_response,
}
use ttlock_ble.Commands.Control.{
  LockState, payload_query_state, parse_lock_status, parse_state_battery,
}
use ttlock_ble.DateTime.{DateTime}
use ttlock_ble.Opcodes.{
  cmd_unlock, cmd_lock, cmd_query_state, cmd_get_lock_time, cmd_time_calibrate,
}
use ttlock_ble.Outcome.{fold_parse_error, fold_value_error}

-- The keep-alive window that follows is in Lifecycle.
unfoldable pub unlock : Client → Act (Unit {0})
unlock c = do ps ← check_user_time c; control_lock c cmd_unlock ps

unfoldable pub lock : Client → Act (Unit {0})
lock c = do ps ← check_user_time c; control_lock c cmd_lock ps

unfoldable pub calibrate_time : Client → DateTime → Act (Unit {0})
calibrate_time c local_time = do
  admin_handshake c
  payload ← lift (payload_time_calibrate local_time)
  plain ← round_trip c cmd_time_calibrate payload
  require_success plain

unfoldable pub get_lock_time : Client → Act DateTime
get_lock_time c = do
  plain ← round_trip c cmd_get_lock_time payload_get_lock_time
  lift (fold fold_parse_error (parse_get_lock_time_response plain))

unfoldable pub query_state : Client → Act (Option LockState × Option ℕ)
query_state c = do
  plain ← round_trip c cmd_query_state payload_query_state
  state ← lift (fold fold_value_error (parse_lock_status plain))
  battery ← lift (fold fold_value_error (parse_state_battery plain))
  pure (state, battery)

-- `_poke_lock`, the keep-alive's round trip.
unfoldable pub poke_lock : Client → Act (Unit {0})
poke_lock c = do resp ← exchange_command c cmd_query_state payload_query_state; pure tt
