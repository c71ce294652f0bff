-- ===== src/Client/Core.antt =====
-- The private helpers of `TTLockClient`: frames, replies, and the two handshakes.
use ttlock_ble.Base.{ℕ, Bool, true, ◌==◌, if◌then◌else◌}
use ttlock_ble.Base.Bytes.{Bytes}
use ttlock_ble.Client.Act.{Act, ◌>>=◌, pure, raise, lift, fold, transport_exchange}
use ttlock_ble.Commands.Control.{payload_unlock}
use ttlock_ble.Commands.Session.{
  default_start, default_end, payload_check_user_time, payload_check_admin, payload_check_random,
  parse_check_user_time_response, parse_check_admin_response,
}
use ttlock_ble.Crypto.{Cipher, aes_decrypt}
use ttlock_ble.Encoding.{response_success, parse_response_status}
use ttlock_ble.Frame.{Frame}
use ttlock_ble.Models.LockVersion.{LockVersion, for_lock, encrypt_data}
use ttlock_ble.Opcodes.{cmd_check_user_time, cmd_check_admin, cmd_check_random}
use ttlock_ble.Outcome.{Result, ok, raised, tt_lock_error, fold_parse_error, fold_value_error}
use ttlock_ble.Text.{Text, is_decimal}

-- The fields of `VirtualKey` that the BLE commands use; `aes_key` is `hex_key_to_bytes(aesKeyStr)`.
pub record VirtualKey : Type 0 where
  pub lock_version : LockVersion
  pub aes_key : Bytes
  pub unlock_key : Text
  pub lock_flag_pos : ℕ
  pub admin_ps : Text
  pub uid : ℕ

-- What a client works with: the AES package, its key, and the clock that `payload_unlock` reads.
pub record Client : Type 0 where
  pub cipher : Cipher
  pub key : VirtualKey
  pub now_ms : ℕ

-- Whether an opened envelope echoes the command. What cannot be opened counts as a reply, since
-- `aes_decrypt` and `parse_response_status` raise `ValueError` only.
unfoldable pub echoes : Result (ℕ × ℕ × Bytes) → ℕ → Bool
echoes (ok (echo, status, content)) expected_command = echo == expected_command
echoes (raised e) expected_command = true

unfoldable pub opened : Client → Frame → Result (ℕ × ℕ × Bytes)
opened c candidate = elim (aes_decrypt c.cipher candidate.payload c.key.aes_key) [
  | ok plain ↦ parse_response_status plain
  | raised e ↦ raised e
]

-- `_answers`
unfoldable pub answers : Client → Frame → ℕ → Bool
unfolding echoes opened
answers c candidate expected_command = echoes (opened c candidate) expected_command

-- `_frame`
unfoldable pub frame_of : Client → ℕ → Bytes → Result Frame
unfolding for_lock encrypt_data
frame_of c command payload =
    encrypt_data c.cipher (for_lock c.key.lock_version command payload) c.key.aes_key

-- `_decrypt_response`
unfoldable pub decrypt_response : Client → Frame → Result Bytes
decrypt_response c resp = fold fold_value_error (aes_decrypt c.cipher resp.payload c.key.aes_key)

-- `self._transport.exchange(self._frame(command, payload))`
unfoldable pub exchange_command : Client → ℕ → Bytes → Act Frame
exchange_command c command payload = do
  f ← lift (frame_of c command payload)
  transport_exchange (answers c) f

-- The same, and the reply decrypted.
unfoldable pub round_trip : Client → ℕ → Bytes → Act Bytes
unfolding exchange_command
round_trip c command payload = do
  resp ← exchange_command c command payload
  lift (decrypt_response c resp)

-- `_parse_response_envelope` and the status test of `_require_success`.
unfoldable pub require_success : Bytes → Act (Unit {0})
require_success plain = do
  (echo, status, content) ← lift (fold fold_value_error (parse_response_status plain))
  if status == response_success then pure tt else raise tt_lock_error

-- `_check_user_time`
unfoldable pub check_user_time : Client → Act ℕ
unfolding round_trip
check_user_time c = do
  payload ← lift (payload_check_user_time c.key.uid default_start default_end c.key.lock_flag_pos)
  plain ← round_trip c cmd_check_user_time payload
  lift (fold fold_parse_error (parse_check_user_time_response plain))

-- The two round trips of `_admin_handshake`.
unfoldable pub admin_steps : Client → Act (Unit {0})
unfolding round_trip require_success
admin_steps c = do
  payload ← lift (payload_check_admin c.key.uid c.key.admin_ps c.key.lock_flag_pos)
  plain ← round_trip c cmd_check_admin payload
  ps_from_lock ← lift (fold fold_parse_error (parse_check_admin_response plain))
  random ← lift (payload_check_random ps_from_lock c.key.unlock_key)
  plain ← round_trip c cmd_check_random random
  require_success plain

-- `_admin_handshake`
unfoldable pub admin_handshake : Client → Act (Unit {0})
unfolding admin_steps
admin_handshake c = if is_decimal c.key.admin_ps then admin_steps c else raise tt_lock_error

-- `_control_lock`
unfoldable pub control_lock : Client → ℕ → ℕ → Act (Unit {0})
unfolding round_trip require_success
control_lock c opcode ps = do
  payload ← lift (payload_unlock c.now_ms ps c.key.unlock_key 0)
  plain ← round_trip c opcode payload
  require_success plain
