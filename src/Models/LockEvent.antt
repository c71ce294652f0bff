-- ===== src/Models/LockEvent.antt =====
-- ttlock_ble/models/lock_event.py: a push notification.
use ttlock_ble.Base.{
  ℕ, ◌||◌, not, Option, none, some, length, get_elem?, slice, leb, ◌==◌, if◌then◌else◌,
}
use ttlock_ble.Base.Bytes.{Bytes, from_bytes}
use ttlock_ble.Commands.Control.{LockState, lock_state_of}
use ttlock_ble.DateTime.{DateTime, decode_date6}

-- `status` is the number itself: `ResponseStatus(status)` has the same value.
pub record LockEvent : Type 0 where
  pub cmd_echo : ℕ
  pub status : ℕ
  pub raw : Bytes
  pub battery : Option ℕ
  pub lock_state : Option LockState
  pub uid : Option ℕ
  pub record_id : Option ℕ
  pub timestamp : Option DateTime

bare_event : ℕ → ℕ → Bytes → Option ℕ → LockEvent
bare_event cmd_echo status raw battery = record {
  cmd_echo = cmd_echo;
  status = status;
  raw = raw;
  battery = battery;
  lock_state = none;
  uid = none;
  record_id = none;
  timestamp = none;
}

lock_state_at : Option ℕ → Option LockState
unfolding lock_state_of
lock_state_at none = none
lock_state_at (some b) = lock_state_of b

-- The three shapes of a 0x14 push with data: a state, a log entry, or the battery alone.
-- `_decode_timestamp` of six bytes is `decode_date6`.
unfoldable pub from_payload : ℕ → ℕ → Bytes → LockEvent
unfolding bare_event lock_state_at
from_payload cmd_echo status raw =
    let e = bare_event cmd_echo status raw (get_elem? raw 0) in
    if not (cmd_echo == 0x14) || length raw == 0
    then bare_event cmd_echo status raw none
    else if length raw == 3
    then record e { lock_state = lock_state_at (get_elem? raw 1) }
    else if leb 15 (length raw)
    then record e {
      uid = some (from_bytes (slice 1 5 raw));
      record_id = some (from_bytes (slice 5 9 raw));
      timestamp = decode_date6 (slice 9 15 raw);
    }
    else e
