-- ===== src/Client/Settings.antt =====
-- The admin-gated settings of `TTLockClient`.
use ttlock_ble.Base.{ℕ, Bool}
use ttlock_ble.Base.Bytes.{Bytes}
use ttlock_ble.Client.Act.{Act, ◌>>=◌, ◌>>◌, pure, lift, fold}
use ttlock_ble.Client.Core.{Client, round_trip, require_success, admin_handshake}
use ttlock_ble.Commands.AutoLock.{
  AutoLockLimits, payload_auto_lock_search, payload_auto_lock_set, parse_auto_lock_response,
  parse_auto_lock_limits_response,
}
use ttlock_ble.Commands.DeviceFeature.{
  DeviceFeatures, payload_search_device_feature, parse_device_feature_response,
}
use ttlock_ble.Commands.DeviceProperty.{
  payload_device_property, parse_device_property_string, parse_device_property_mac,
  parse_device_property_clock,
}
use ttlock_ble.Commands.LockSound.{
  LockSound, payload_get_lock_sound, payload_set_lock_sound, payload_set_lock_volume,
  parse_lock_sound_response,
}
use ttlock_ble.Commands.Passcode.{
  payload_passcode_add, payload_passcode_delete, payload_passcode_clear,
}
use ttlock_ble.DateTime.{DateTime}
use ttlock_ble.Opcodes.{
  cmd_auto_lock_manage, cmd_manage_keyboard_password, cmd_set_lock_sound, cmd_search_device_feature,
  cmd_get_device_properties,
}
use ttlock_ble.Outcome.{fold_parse_error}
use ttlock_ble.Text.{Text, ℤ}

-- `_auto_lock_round_trip`
unfoldable pub auto_lock_round_trip : Client → Bytes → Act Bytes
auto_lock_round_trip c payload = do admin_handshake c; round_trip c cmd_auto_lock_manage payload

-- `_auto_lock_exchange`
unfoldable pub auto_lock_exchange : Client → Bytes → Act (ℤ × ℕ)
unfolding auto_lock_round_trip
auto_lock_exchange c payload = do
  plain ← auto_lock_round_trip c payload
  lift (fold fold_parse_error (parse_auto_lock_response plain))

unfoldable pub get_auto_lock_time : Client → Act ℤ
unfolding auto_lock_exchange
get_auto_lock_time c = do
  (seconds, battery) ← auto_lock_exchange c payload_auto_lock_search
  pure seconds

-- The payload is built, and its `ValueError` raised, before anything is sent.
unfoldable pub set_auto_lock_time : Client → ℤ → Act (Unit {0})
unfolding auto_lock_exchange
set_auto_lock_time c seconds = do
  payload ← lift (payload_auto_lock_set seconds)
  answer ← auto_lock_exchange c payload
  pure tt

unfoldable pub get_auto_lock_limits : Client → Act AutoLockLimits
unfolding auto_lock_round_trip
get_auto_lock_limits c = do
  plain ← auto_lock_round_trip c payload_auto_lock_search
  lift (fold fold_parse_error (parse_auto_lock_limits_response plain))

-- `_keyboard_password_exchange`
unfoldable pub keyboard_password_exchange : Client → Bytes → Act (Unit {0})
keyboard_password_exchange c payload = do
  admin_handshake c
  plain ← round_trip c cmd_manage_keyboard_password payload
  require_success plain

unfoldable pub add_passcode : Client → Text → ℕ → Text → Text → Act (Unit {0})
unfolding keyboard_password_exchange
add_passcode c code pwd_type start_date end_date = do
  payload ← lift (payload_passcode_add pwd_type code start_date end_date)
  keyboard_password_exchange c payload

unfoldable pub delete_passcode : Client → Text → ℕ → Act (Unit {0})
unfolding keyboard_password_exchange
delete_passcode c code pwd_type = do
  payload ← lift (payload_passcode_delete pwd_type code)
  keyboard_password_exchange c payload

unfoldable pub clear_passcodes : Client → Act (Unit {0})
unfolding keyboard_password_exchange
clear_passcodes c = keyboard_password_exchange c payload_passcode_clear

unfoldable pub get_lock_sound : Client → Act LockSound
get_lock_sound c = do
  admin_handshake c
  plain ← round_trip c cmd_set_lock_sound payload_get_lock_sound
  lift (fold fold_parse_error (parse_lock_sound_response plain))

unfoldable pub set_lock_sound : Client → Bool → Act (Unit {0})
set_lock_sound c enabled = do
  admin_handshake c
  plain ← round_trip c cmd_set_lock_sound (payload_set_lock_sound enabled)
  require_success plain

unfoldable pub set_lock_volume : Client → ℕ → Act (Unit {0})
set_lock_volume c level = do
  payload ← lift (payload_set_lock_volume level)
  admin_handshake c
  plain ← round_trip c cmd_set_lock_sound payload
  require_success plain

unfoldable pub get_device_features : Client → Act DeviceFeatures
get_device_features c = do
  admin_handshake c
  plain ← round_trip c cmd_search_device_feature payload_search_device_feature
  lift (fold fold_parse_error (parse_device_feature_response plain))

-- `DeviceProperties` of ttlock_ble/models/device_properties.py.
pub record DeviceProperties : Type 0 where
  pub model_variant : Text
  pub hardware_revision : Text
  pub firmware_version : Text
  pub manufacture_date : Text
  pub mac_address : Text
  pub clock_time : DateTime

-- `_device_property_exchange`; the step is a byte at each of its six calls.
unfoldable pub device_property_exchange : Client → ℕ → Act Bytes
device_property_exchange c step = do
  payload ← lift (payload_device_property step)
  round_trip c cmd_get_device_properties payload

property_string : Client → ℕ → Act Text
unfolding device_property_exchange
property_string c step = do
  plain ← device_property_exchange c step
  lift (fold fold_parse_error (parse_device_property_string plain))

-- A `TTLockError` of an exchange passes the handler of the six steps as it is.
unfoldable pub get_device_properties : Client → Act DeviceProperties
unfolding property_string
get_device_properties c = do
  admin_handshake c
  model_variant ← property_string c 1
  hardware_revision ← property_string c 2
  firmware_version ← property_string c 3
  manufacture_date ← property_string c 4
  plain ← device_property_exchange c 5
  mac_address ← lift (fold fold_parse_error (parse_device_property_mac plain))
  plain ← device_property_exchange c 6
  clock_time ← lift (fold fold_parse_error (parse_device_property_clock plain))
  pure (record {
    model_variant = model_variant;
    hardware_revision = hardware_revision;
    firmware_version = firmware_version;
    manufacture_date = manufacture_date;
    mac_address = mac_address;
    clock_time = clock_time;
  })
