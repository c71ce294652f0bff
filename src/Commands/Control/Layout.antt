-- ===== src/Commands/Control/Layout.antt =====
-- The payload that moves the bolt.
use ttlock_ble.Base.{ℕ, ◌/◌, ◌^◌, ◌<◌, ◌≡◌, refl, ◌++◌}
use ttlock_ble.Commands.Control.{payload_unlock}
use ttlock_ble.Commands.Session.Layout.{word, to_bytes-word, low_word-lt}
use ttlock_ble.Encoding.{int_to_bytes_be, assign}
use ttlock_ble.Outcome.{ok}
use ttlock_ble.Text.{Text, ℤ, int_of, low_word, add_ℕ}

-- With a key that is a number and a clock of 32 bits of seconds, the payload is the sum of the
-- lock's number and the key, modulo 2^32, and the seconds of the clock.
pub payload_unlock-layout :
    (now_ms ps : ℕ) (unlock_key : Text) (k : ℤ)
    → int_of unlock_key ≡ ok k
    → now_ms / 1000 < 2 ^ 32
    → payload_unlock now_ms ps unlock_key 0
      ≡ ok (word (low_word (add_ℕ ps k)) ++ word (now_ms / 1000))
unfolding payload_unlock int_to_bytes_be assign word
payload_unlock-layout now_ms ps unlock_key k e h =
    let sum = low_word (add_ℕ ps k) in
    rw (e, to_bytes-word sum (low_word-lt (add_ℕ ps k)), to_bytes-word (now_ms / 1000) h) refl
