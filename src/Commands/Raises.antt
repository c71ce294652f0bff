-- ===== src/Commands/Raises.antt =====
-- What the response parsers raise: the exceptions that the client's handlers expect.
use ttlock_ble.Base.{◌≡◌, refl, arith, ◌⊎◌, inl, [], ◌∷◌, Option, none, some, take}
use ttlock_ble.Base.Bytes.{Bytes}
use ttlock_ble.Commands.AutoLock.{
  successful_data, parse_auto_lock_response, parse_auto_lock_limits_response,
}
use ttlock_ble.Commands.Card.{card_id_length, parse_card_list_response}
use ttlock_ble.Commands.Clock.{date_or_raise, parse_get_lock_time_response}
use ttlock_ble.Commands.Control.{parse_lock_status, parse_state_battery}
use ttlock_ble.Commands.DeviceFeature.{parse_device_feature_response}
use ttlock_ble.Commands.DeviceProperty.{
  property_data, parse_device_property_string, parse_device_property_mac,
  parse_device_property_clock,
}
use ttlock_ble.Commands.Fingerprint.{parse_fingerprint_list_response}
use ttlock_ble.Commands.LockSound.{reported_volume, parse_lock_sound_response}
use ttlock_ble.Commands.Session.{parse_check_user_time_response, parse_check_admin_response}
use ttlock_ble.DateTime.{DateTime, decode_date6}
use ttlock_ble.Encoding.{parse_response_status, decode_null_terminated_ascii, until_zero}
use ttlock_ble.Outcome.{Result, ok, raised, Exn, value_error, runtime_error, ◌>>=◌}
use ttlock_ble.Outcome.Access.{byte_at}
use ttlock_ble.Text.{decode_ascii}

-- `except (RuntimeError, ValueError)`
unfoldable pub IsParseError : Exn → Type 0
IsParseError e = (e ≡ value_error) ⊎ (e ≡ runtime_error)

-- A result whose exceptions, if any, satisfy P.
unfoldable pub RaisesOnly : {A : Type 0} → (Exn → Type 0) → Result A → Type 0
RaisesOnly P (ok a) = Unit
RaisesOnly P (raised e) = P e

pub RaisesOnly->>= :
    {A B : Type 0} (P : Exn → Type 0) (r : Result A) (f : A → Result B)
    → RaisesOnly P r
    → ((a : A) → r ≡ ok a → RaisesOnly P (f a))
    → RaisesOnly P (r >>= f)
unfolding RaisesOnly
RaisesOnly->>= P (ok a) f h k = k a refl
RaisesOnly->>= P (raised e) f h k = h

pub date_or_raise-raises : (t : Option DateTime) → RaisesOnly IsParseError (date_or_raise t)
unfolding date_or_raise RaisesOnly IsParseError
date_or_raise-raises none = inl refl
date_or_raise-raises (some t) = tt

pub decode_ascii-raises : (raw : Bytes) → RaisesOnly IsParseError (decode_ascii raw)
unfolding decode_ascii RaisesOnly IsParseError
decode_ascii-raises [] = tt
decode_ascii-raises (b ∷ bs) = let h = decode_ascii-raises bs in ground (arith, h)

pub user_time-raises : (p : Bytes) → RaisesOnly IsParseError (parse_check_user_time_response p)
unfolding parse_check_user_time_response RaisesOnly IsParseError parse_response_status
user_time-raises (echo ∷ status ∷ content) = ground arith
user_time-raises _ = ground arith

pub admin-raises : (p : Bytes) → RaisesOnly IsParseError (parse_check_admin_response p)
unfolding parse_check_admin_response RaisesOnly IsParseError parse_response_status
admin-raises (echo ∷ status ∷ content) = ground arith
admin-raises _ = ground arith

pub auto_lock-raises : (p : Bytes) → RaisesOnly IsParseError (parse_auto_lock_response p)
unfolding parse_auto_lock_response successful_data byte_at RaisesOnly IsParseError
    parse_response_status
auto_lock-raises (echo ∷ status ∷ battery ∷ op_type ∷ content) = ground arith
auto_lock-raises _ = ground arith

pub limits-raises : (p : Bytes) → RaisesOnly IsParseError (parse_auto_lock_limits_response p)
unfolding parse_auto_lock_limits_response successful_data byte_at RaisesOnly IsParseError
    parse_response_status
limits-raises (echo ∷ status ∷ battery ∷ op_type ∷ content) = ground arith
limits-raises _ = ground arith

pub clock-raises : (p : Bytes) → RaisesOnly IsParseError (parse_get_lock_time_response p)
unfolding parse_get_lock_time_response RaisesOnly IsParseError parse_response_status
clock-raises (echo ∷ status ∷ content) =
    let h = date_or_raise-raises (decode_date6 (take 6 content)) in ground (arith, h)
clock-raises _ = ground arith

pub status-raises : (p : Bytes) → RaisesOnly IsParseError (parse_lock_status p)
unfolding parse_lock_status byte_at RaisesOnly IsParseError parse_response_status
status-raises (echo ∷ status ∷ battery ∷ value ∷ content) = ground arith
status-raises _ = ground arith

pub battery-raises : (p : Bytes) → RaisesOnly IsParseError (parse_state_battery p)
unfolding parse_state_battery byte_at RaisesOnly IsParseError parse_response_status
battery-raises (echo ∷ status ∷ battery ∷ content) = ground arith
battery-raises _ = ground arith

pub feature-raises : (p : Bytes) → RaisesOnly IsParseError (parse_device_feature_response p)
unfolding parse_device_feature_response byte_at RaisesOnly IsParseError parse_response_status
feature-raises (echo ∷ status ∷ battery ∷ content) = ground arith
feature-raises _ = ground arith

pub string-raises : (p : Bytes) → RaisesOnly IsParseError (parse_device_property_string p)
unfolding parse_device_property_string property_data decode_null_terminated_ascii RaisesOnly
    IsParseError parse_response_status
string-raises (echo ∷ status ∷ content) =
    let h = decode_ascii-raises (until_zero content) in ground (arith, h)
string-raises _ = ground arith

pub mac-raises : (p : Bytes) → RaisesOnly IsParseError (parse_device_property_mac p)
unfolding parse_device_property_mac property_data RaisesOnly IsParseError parse_response_status
mac-raises (echo ∷ status ∷ content) = ground arith
mac-raises _ = ground arith

pub property_clock-raises : (p : Bytes) → RaisesOnly IsParseError (parse_device_property_clock p)
unfolding parse_device_property_clock property_data RaisesOnly IsParseError parse_response_status
property_clock-raises (echo ∷ status ∷ content) =
    let h = date_or_raise-raises (decode_date6 (take 6 content)) in ground (arith, h)
property_clock-raises _ = ground arith

pub sound-raises : (p : Bytes) → RaisesOnly IsParseError (parse_lock_sound_response p)
unfolding parse_lock_sound_response reported_volume byte_at RaisesOnly IsParseError
    parse_response_status
sound-raises (echo ∷ status ∷ a ∷ b ∷ c ∷ []) = ground arith
sound-raises (echo ∷ status ∷ a ∷ b ∷ c ∷ d ∷ content) = ground arith
sound-raises _ = ground arith

pub fingerprint-raises : (p : Bytes) → RaisesOnly IsParseError (parse_fingerprint_list_response p)
unfolding parse_fingerprint_list_response RaisesOnly IsParseError parse_response_status
fingerprint-raises (echo ∷ status ∷ content) = ground arith
fingerprint-raises _ = ground arith

pub card-raises : (p : Bytes) → RaisesOnly IsParseError (parse_card_list_response p)
unfolding parse_card_list_response card_id_length RaisesOnly IsParseError parse_response_status
card-raises (echo ∷ status ∷ content) = ground arith
card-raises _ = ground arith
