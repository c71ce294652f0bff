-- ===== src/Commands/LockSound.antt =====
-- ttlock_ble/commands/lock_sound.py: the beep and its volume.
use ttlock_ble.Base.{
  ℕ, Bool, ◌&&◌, not, [], ◌∷◌, Option, none, some, length, ltb, leb, ◌==◌, if◌then◌else◌,
}
use ttlock_ble.Base.Bytes.{Bytes}
use ttlock_ble.Encoding.{response_success, parse_response_status}
use ttlock_ble.Outcome.{Result, ok, value_error, runtime_error, refuse_if, ◌>>=◌, ◌>>◌}
use ttlock_ble.Outcome.Access.{byte_at}

-- `level in LockVolume`
unfoldable pub is_volume : ℕ → Bool
is_volume level = leb 1 level && leb level 5

pub record LockSound : Type 0 where
  pub enabled : Bool
  pub volume : Option ℕ

unfoldable pub payload_get_lock_sound : Bytes
payload_get_lock_sound = 0x01 ∷ []

unfoldable pub payload_set_lock_sound : Bool → Bytes
payload_set_lock_sound enabled = 0x02 ∷ (if enabled then 0x01 else 0x00) ∷ []

unfoldable pub payload_set_lock_volume : ℕ → Result Bytes
unfolding is_volume
payload_set_lock_volume level = do
  refuse_if (not (is_volume level)) value_error
  ok (0x02 ∷ 0x01 ∷ level ∷ 0x00 ∷ [])

-- The volume byte, where there is one that names a `LockVolume`.
unfoldable pub reported_volume : Bytes → Result (Option ℕ)
unfolding is_volume byte_at
reported_volume content =
    if ltb 3 (length content)
    then (do level ← byte_at content 3; ok (if is_volume level then some level else none))
    else ok none

unfoldable pub parse_lock_sound_response : Bytes → Result LockSound
unfolding parse_response_status byte_at reported_volume
parse_lock_sound_response plaintext = do
  (echo, status, content) ← parse_response_status plaintext
  refuse_if (not (status == response_success)) runtime_error
  refuse_if (ltb (length content) 3) value_error
  op_echo ← byte_at content 1
  refuse_if (not (op_echo == 0x01)) value_error
  volume ← reported_volume content
  sound ← byte_at content 2
  ok (record { enabled = not (sound == 0); volume = volume })
