-- ===== src/Commands/Session.antt =====
-- ttlock_ble/commands/session.py: the handshakes.
pub mod Layout
use ttlock_ble.Base.{ℕ, ◌/◌, ◌%◌, ◌^◌, not, [], ◌∷◌, length, take, ltb, ◌==◌}
use ttlock_ble.Base.Bytes.{Bytes, from_bytes}
use ttlock_ble.Encoding.{
  response_success, parse_response_status, decimal_time_bytes, int_to_bytes_be, assign, set_at,
}
use ttlock_ble.Outcome.{
  Result, ok, raised, value_error, runtime_error, overflow_error, refuse_if, ◌>>=◌, ◌>>◌,
}
use ttlock_ble.Outcome.Access.{to_bytes}
use ttlock_ble.Text.{Text, ℤ, pos, negsuc, codes, low_word, add_ℕ, int_of}

abbrev pub vendor : Text
vendor = codes "0658d44e0c504619a09c5b91be75a3a8"

payload_get_aes_key : Bytes
payload_get_aes_key = vendor

unfoldable pub payload_check_random : ℕ → Text → Result Bytes
unfolding to_bytes low_word add_ℕ
payload_check_random ps_from_lock unlock_key = do
  key ← int_of unlock_key
  to_bytes (low_word (add_ℕ ps_from_lock key)) 4

abbrev zeros_17 : Bytes
zeros_17 = 0 ∷ 0 ∷ 0 ∷ 0 ∷ 0 ∷ 0 ∷ 0 ∷ 0 ∷ 0 ∷ 0 ∷ 0 ∷ 0 ∷ 0 ∷ 0 ∷ 0 ∷ 0 ∷ 0 ∷ []

abbrev zeros_11 : Bytes
zeros_11 = 0 ∷ 0 ∷ 0 ∷ 0 ∷ 0 ∷ 0 ∷ 0 ∷ 0 ∷ 0 ∷ 0 ∷ 0 ∷ []

abbrev pub default_start : Text
default_start = codes "0001311400"

abbrev pub default_end : Text
default_end = codes "9911301400"

unfoldable pub payload_check_user_time : ℕ → Text → Text → ℕ → Result Bytes
unfolding assign set_at
payload_check_user_time uid start_date end_date lock_flag_pos = do
  start ← decimal_time_bytes start_date
  let out = assign 0 5 start zeros_17
  until ← decimal_time_bytes end_date
  let out = assign 5 10 until out
  out ← set_at 10 (lock_flag_pos / 2 ^ 16 % 256) out
  out ← set_at 11 (lock_flag_pos / 2 ^ 8 % 256) out
  out ← set_at 12 (lock_flag_pos % 256) out
  who ← int_to_bytes_be uid 4
  ok (assign 13 17 who out)

-- `int_to_bytes_be(int(admin_ps), 4)`: a negative number does not fit either.
unfoldable pub admin_bytes : ℤ → Result Bytes
unfolding int_to_bytes_be
admin_bytes (pos n) = int_to_bytes_be n 4
admin_bytes (negsuc n) = raised overflow_error

unfoldable pub payload_check_admin : ℕ → Text → ℕ → Result Bytes
unfolding assign set_at admin_bytes
payload_check_admin uid admin_ps lock_flag_pos = do
  secret ← int_of admin_ps
  front ← admin_bytes secret
  let out = assign 0 4 front zeros_11
  out ← set_at 4 (lock_flag_pos / 2 ^ 16 % 256) out
  out ← set_at 5 (lock_flag_pos / 2 ^ 8 % 256) out
  out ← set_at 6 (lock_flag_pos % 256) out
  who ← int_to_bytes_be uid 4
  ok (assign 7 11 who out)

-- The token of four bytes behind a SUCCESS status.
unfoldable pub parse_check_user_time_response : Bytes → Result ℕ
unfolding parse_response_status
parse_check_user_time_response plaintext = do
  (echo, status, content) ← parse_response_status plaintext
  refuse_if (not (status == response_success)) runtime_error
  refuse_if (ltb (length content) 4) value_error
  ok (from_bytes (take 4 content))

unfoldable pub parse_check_admin_response : Bytes → Result ℕ
unfolding parse_response_status
parse_check_admin_response plaintext = do
  (echo, status, content) ← parse_response_status plaintext
  refuse_if (not (status == response_success)) runtime_error
  refuse_if (ltb (length content) 4) value_error
  ok (from_bytes (take 4 content))
