-- ===== src/Commands/Parsers.antt =====
-- What the response parsers that the client calls raise, all of them.
use ttlock_ble.Base.Bytes.{Bytes}
use ttlock_ble.Commands.AutoLock.{parse_auto_lock_response, parse_auto_lock_limits_response}
use ttlock_ble.Commands.Card.{parse_card_list_response}
use ttlock_ble.Commands.Clock.{parse_get_lock_time_response}
use ttlock_ble.Commands.Control.{parse_lock_status, parse_state_battery}
use ttlock_ble.Commands.DeviceFeature.{parse_device_feature_response}
use ttlock_ble.Commands.DeviceProperty.{
  parse_device_property_string, parse_device_property_mac, parse_device_property_clock,
}
use ttlock_ble.Commands.Fingerprint.{parse_fingerprint_list_response}
use ttlock_ble.Commands.LockSound.{parse_lock_sound_response}
use ttlock_ble.Commands.Session.{parse_check_user_time_response, parse_check_admin_response}
use ttlock_ble.Outcome.{Exn}
use ttlock_ble.Commands.PasscodeList.{parse_passcode_list_response}
use ttlock_ble.Commands.PasscodeList.Cyclic.{parse_passcode_list_response-raises}
use ttlock_ble.Commands.Raises.{
  IsParseError, RaisesOnly, user_time-raises, admin-raises, auto_lock-raises, limits-raises,
  clock-raises, status-raises, battery-raises, feature-raises, string-raises, mac-raises,
  property_clock-raises, sound-raises, fingerprint-raises, card-raises,
}

-- Each parser that the client calls under a handler, on the same bytes.
pub ParsersRaise : (Exn → Type 0) → Bytes → Type 0
ParsersRaise P p =
    RaisesOnly P (parse_check_user_time_response p)
    × RaisesOnly P (parse_check_admin_response p)
    × RaisesOnly P (parse_auto_lock_response p)
    × RaisesOnly P (parse_auto_lock_limits_response p)
    × RaisesOnly P (parse_get_lock_time_response p)
    × RaisesOnly P (parse_lock_status p)
    × RaisesOnly P (parse_state_battery p)
    × RaisesOnly P (parse_device_feature_response p)
    × RaisesOnly P (parse_device_property_string p)
    × RaisesOnly P (parse_device_property_mac p)
    × RaisesOnly P (parse_device_property_clock p)
    × RaisesOnly P (parse_lock_sound_response p)
    × RaisesOnly P (parse_fingerprint_list_response p)
    × RaisesOnly P (parse_card_list_response p)
    × RaisesOnly P (parse_passcode_list_response p)

-- Whatever the bytes of an answer are, these parsers raise only `ValueError` or `RuntimeError`, the
-- exceptions that the client's handlers expect: no index is out of range in any of them.
pub parsers-raise : (p : Bytes) → ParsersRaise IsParseError p
unfolding ParsersRaise
parsers-raise p = (
  user_time-raises p,
  admin-raises p,
  auto_lock-raises p,
  limits-raises p,
  clock-raises p,
  status-raises p,
  battery-raises p,
  feature-raises p,
  string-raises p,
  mac-raises p,
  property_clock-raises p,
  sound-raises p,
  fingerprint-raises p,
  card-raises p,
  parse_passcode_list_response-raises p,
)
