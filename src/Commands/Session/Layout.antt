-- ===== src/Commands/Session/Layout.antt =====
-- The payloads of the two handshakes, byte by byte.
use ttlock_ble.Base.{ℕ, ◌/◌, ◌%◌, ◌^◌, ◌<◌, ◌≡◌, refl, arith, [], ◌∷◌, ◌++◌, All}
use ttlock_ble.Base.Bytes.{Bytes, IsByte, low_bytes}
use ttlock_ble.Commands.Session.{
  default_start, default_end, payload_check_user_time, admin_bytes, payload_check_admin,
  payload_check_random,
}
use ttlock_ble.Encoding.{byte_of_int, decimal_time_bytes, int_to_bytes_be}
use ttlock_ble.Outcome.{ok}
use ttlock_ble.Outcome.Access.{make_byte, to_bytes}
use ttlock_ble.Text.{Text, ℤ, pos, negsuc, int_of, low_word, add_ℕ}

start_bytes : decimal_time_bytes default_start ≡ ok (0 ∷ 1 ∷ 31 ∷ 14 ∷ 0 ∷ [])
unfolding decimal_time_bytes byte_of_int make_byte int_of
start_bytes = refl

end_bytes : decimal_time_bytes default_end ≡ ok (99 ∷ 11 ∷ 30 ∷ 14 ∷ 0 ∷ [])
unfolding decimal_time_bytes byte_of_int make_byte int_of
end_bytes = refl

-- The four bytes of a 32-bit number.
unfoldable pub word : ℕ → Bytes
word n = n / 2 ^ 24 % 256 ∷ n / 2 ^ 16 % 256 ∷ n / 2 ^ 8 % 256 ∷ n % 256 ∷ []

pub to_bytes-word : (n : ℕ) → n < 2 ^ 32 → to_bytes n 4 ≡ ok (word n)
unfolding to_bytes low_bytes word
to_bytes-word n h = ground arith

pub word-IsByte : (n : ℕ) → All IsByte (word n)
unfolding word
word-IsByte n = omega arith

pub low_word-lt : (k : ℤ) → low_word k < 2 ^ 32
unfolding low_word
low_word-lt (pos n) = omega arith
low_word-lt (negsuc n) = omega arith

-- The three low bytes of the lock's flag position.
unfoldable pub flag_bytes : ℕ → Bytes
flag_bytes n = n / 2 ^ 16 % 256 ∷ n / 2 ^ 8 % 256 ∷ n % 256 ∷ []

-- For a uid of 32 bits the payload of the user check is the two fixed time windows, the three low
-- bytes of the flag position and the four bytes of the uid.
pub payload_check_user_time-layout :
    (uid lock_flag_pos : ℕ)
    → uid < 2 ^ 32
    → payload_check_user_time uid default_start default_end lock_flag_pos
      ≡ ok (
          (0 ∷ 1 ∷ 31 ∷ 14 ∷ 0 ∷ 99 ∷ 11 ∷ 30 ∷ 14 ∷ 0 ∷ [])
          ++ (flag_bytes lock_flag_pos ++ word uid))
unfolding payload_check_user_time int_to_bytes_be flag_bytes word
payload_check_user_time-layout uid lock_flag_pos h =
    rw (start_bytes, end_bytes, to_bytes-word uid h) refl

-- For an admin secret and a uid of 32 bits the payload of the admin check is the four bytes of the
-- secret, the three low bytes of the flag position and the four bytes of the uid.
pub payload_check_admin-layout :
    (uid secret lock_flag_pos : ℕ) (admin_ps : Text)
    → int_of admin_ps ≡ ok (pos secret)
    → secret < 2 ^ 32
    → uid < 2 ^ 32
    → payload_check_admin uid admin_ps lock_flag_pos
      ≡ ok (word secret ++ (flag_bytes lock_flag_pos ++ word uid))
unfolding payload_check_admin admin_bytes int_to_bytes_be flag_bytes word
payload_check_admin-layout uid secret lock_flag_pos admin_ps e h k =
    rw (e, to_bytes-word secret h, to_bytes-word uid k) refl

-- The answer to the lock's challenge is the sum of its number and the unlock key, modulo 2^32.
pub payload_check_random-layout :
    (ps : ℕ) (unlock_key : Text) (k : ℤ)
    → int_of unlock_key ≡ ok k
    → payload_check_random ps unlock_key ≡ ok (word (low_word (add_ℕ ps k)))
unfolding payload_check_random
payload_check_random-layout ps unlock_key k e =
    rw e (to_bytes-word (low_word (add_ℕ ps k)) (low_word-lt (add_ℕ ps k)))
