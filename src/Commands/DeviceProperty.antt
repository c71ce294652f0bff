-- ===== src/Commands/DeviceProperty.antt =====
-- ttlock_ble/commands/device_properties.py: the indexed properties of CMD 0x90.
use ttlock_ble.Base.{ℕ, not, [], ◌∷◌, take, ◌==◌}
use ttlock_ble.Base.Bytes.{Bytes}
use ttlock_ble.Commands.Clock.{date_or_raise}
use ttlock_ble.DateTime.{DateTime, decode_date6}
use ttlock_ble.Encoding.{
  response_success, parse_response_status, decode_mac6, decode_null_terminated_ascii,
}
use ttlock_ble.Outcome.{Result, ok, runtime_error, refuse_if, ◌>>=◌, ◌>>◌}
use ttlock_ble.Outcome.Access.{make_byte}
use ttlock_ble.Text.{Text, upper}

unfoldable pub payload_device_property : ℕ → Result Bytes
unfolding make_byte
payload_device_property step = do b ← make_byte step; ok (b ∷ [])

-- Either failure, the unrecognised step or any other, is a `RuntimeError`.
unfoldable pub property_data : Bytes → Result Bytes
unfolding parse_response_status
property_data plaintext = do
  (echo, status, content) ← parse_response_status plaintext
  refuse_if (not (status == response_success)) runtime_error
  ok content

unfoldable pub parse_device_property_string : Bytes → Result Text
unfolding property_data
parse_device_property_string plaintext = do
  content ← property_data plaintext
  decode_null_terminated_ascii content

unfoldable pub parse_device_property_mac : Bytes → Result Text
unfolding property_data
parse_device_property_mac plaintext = do
  content ← property_data plaintext
  ok (upper (decode_mac6 content))

unfoldable pub parse_device_property_clock : Bytes → Result DateTime
unfolding property_data date_or_raise
parse_device_property_clock plaintext = do
  content ← property_data plaintext
  date_or_raise (decode_date6 (take 6 content))
