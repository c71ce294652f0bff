-- ===== src/Commands/AutoLock.antt =====
-- ttlock_ble/commands/auto_lock.py: the auto-lock delay.
pub mod Replies
use ttlock_ble.Base.{ℕ, ◌/◌, ◌%◌, not, [], ◌∷◌, length, slice, ltb, leb, ◌==◌, if◌then◌else◌}
use ttlock_ble.Base.Bytes.{Bytes, from_bytes}
use ttlock_ble.Encoding.{response_success, parse_response_status}
use ttlock_ble.Outcome.{Result, ok, raised, value_error, runtime_error, refuse_if, ◌>>=◌, ◌>>◌}
use ttlock_ble.Outcome.Access.{byte_at}
use ttlock_ble.Text.{ℤ, pos, negsuc}

-- `AutoLockOperate`
abbrev pub search : ℕ
search = 1

abbrev pub modify : ℕ
modify = 2

unfoldable pub payload_auto_lock_search : Bytes
payload_auto_lock_search = search ∷ []

-- A negative number of seconds is refused as well.
unfoldable pub payload_auto_lock_set : ℤ → Result Bytes
payload_auto_lock_set (negsuc n) = raised value_error
payload_auto_lock_set (pos seconds) = do
  refuse_if (not (leb seconds 0xffff)) value_error
  ok (modify ∷ seconds / 256 % 256 ∷ seconds % 256 ∷ [])

unfoldable pub successful_data : Bytes → Result Bytes
unfolding parse_response_status
successful_data plaintext = do
  (echo, status, content) ← parse_response_status plaintext
  refuse_if (not (status == response_success)) runtime_error
  refuse_if (ltb (length content) 2) value_error
  ok content

-- The seconds, -1 for an answer that carries none, and the battery percentage.
unfoldable pub parse_auto_lock_response : Bytes → Result (ℤ × ℕ)
unfolding successful_data byte_at
parse_auto_lock_response plaintext = do
  content ← successful_data plaintext
  battery ← byte_at content 0
  op_type ← byte_at content 1
  if not (op_type == 1) then ok (negsuc 0, battery) else do
    refuse_if (ltb (length content) 4) value_error
    ok (pos (from_bytes (slice 2 4 content)), battery)

pub record AutoLockLimits : Type 0 where
  pub min_allowed : ℕ
  pub max_allowed : ℕ

unfoldable pub parse_auto_lock_limits_response : Bytes → Result AutoLockLimits
unfolding successful_data byte_at
parse_auto_lock_limits_response plaintext = do
  content ← successful_data plaintext
  op_type ← byte_at content 1
  refuse_if (not (op_type == 1)) value_error
  refuse_if (ltb (length content) 8) value_error
  ok (record {
    min_allowed = from_bytes (slice 4 6 content);
    max_allowed = from_bytes (slice 6 8 content);
  })
