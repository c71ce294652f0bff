-- ===== src/Commands/Clock.antt =====
-- ttlock_ble/commands/clock.py: setting and reading the lock's clock.
pub mod RoundTrip
use ttlock_ble.Base.{ℕ, not, List, [], ◌∷◌, Option, none, some, take, ◌==◌}
use ttlock_ble.Base.Bytes.{Bytes}
use ttlock_ble.DateTime.{DateTime, decode_date6, strftime}
use ttlock_ble.Encoding.{response_success, parse_response_status, decimal_time_bytes}
use ttlock_ble.Outcome.{Result, ok, raised, value_error, runtime_error, refuse_if, ◌>>=◌, ◌>>◌}

unfoldable pub payload_time_calibrate : DateTime → Result Bytes
unfolding strftime
payload_time_calibrate local_time = decimal_time_bytes (strftime local_time)

unfoldable pub payload_get_lock_time : Bytes
payload_get_lock_time = []

-- `if parsed is None: raise ValueError`
unfoldable pub date_or_raise : Option DateTime → Result DateTime
date_or_raise none = raised value_error
date_or_raise (some t) = ok t

unfoldable pub parse_get_lock_time_response : Bytes → Result DateTime
unfolding parse_response_status date_or_raise
parse_get_lock_time_response plaintext = do
  (echo, status, content) ← parse_response_status plaintext
  refuse_if (not (status == response_success)) runtime_error
  date_or_raise (decode_date6 (take 6 content))
