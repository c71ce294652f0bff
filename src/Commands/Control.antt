-- ===== src/Commands/Control.antt =====
-- ttlock_ble/commands/control.py: bolt control and the state query.
pub mod Layout
use ttlock_ble.Base.{
  ℕ, ◌/◌, ◌||◌, not, [], ◌∷◌, Option, none, some, length, ltb, ◌==◌, if◌then◌else◌,
}
use ttlock_ble.Base.Bytes.{Bytes}
use ttlock_ble.Encoding.{response_success, parse_response_status, int_to_bytes_be, assign}
use ttlock_ble.Outcome.{Result, ok, ◌>>=◌}
use ttlock_ble.Outcome.Access.{to_bytes, byte_at}
use ttlock_ble.Text.{Text, codes, low_word, add_ℕ, int_of}

pub data LockState : Type 0 where
  locked unlocked : LockState

-- `LockState(value)`, with `none` for its `ValueError`.
unfoldable pub lock_state_of : ℕ → Option LockState
lock_state_of value = if value == 0 then some locked else if value == 1 then some unlocked else none

abbrev zeros_8 : Bytes
zeros_8 = 0 ∷ 0 ∷ 0 ∷ 0 ∷ 0 ∷ 0 ∷ 0 ∷ 0 ∷ []

-- `now_ms` is the wall clock, read when no time is given.
unfoldable pub payload_unlock : ℕ → ℕ → Text → ℕ → Result Bytes
unfolding to_bytes low_word add_ℕ assign int_to_bytes_be
payload_unlock now_ms ps_from_lock unlock_key ts_ms = do
  let stamp = if ts_ms == 0 then now_ms else ts_ms
  key ← int_of unlock_key
  sum ← to_bytes (low_word (add_ℕ ps_from_lock key)) 4
  seconds ← int_to_bytes_be (stamp / 1000) 4
  ok (assign 4 8 seconds (assign 0 4 sum zeros_8))

unfoldable pub payload_query_state : Bytes
payload_query_state = codes "SCIENER"

unfoldable pub parse_lock_status : Bytes → Result (Option LockState)
unfolding parse_response_status lock_state_of byte_at
parse_lock_status plaintext = do
  (echo, status, content) ← parse_response_status plaintext
  if not (status == response_success) || ltb (length content) 2
      then ok none
      else do value ← byte_at content 1; ok (lock_state_of value)

unfoldable pub parse_state_battery : Bytes → Result (Option ℕ)
unfolding parse_response_status byte_at
parse_state_battery plaintext = do
  (echo, status, content) ← parse_response_status plaintext
  if not (status == response_success) || ltb (length content) 1
      then ok none
      else do value ← byte_at content 0; ok (some value)
