-- ===== src/Encoding/Decimal.antt =====
-- The clock encoding of numbers below 100, two characters each.
use ttlock_ble.Base.{ℕ, ◌%◌, ◌<◌, ◌≡◌, refl, arith, List, [], ◌∷◌, ◌++◌, All, length}
use ttlock_ble.DateTime.{two_digits}
use ttlock_ble.Encoding.{byte_of_int, pair_bytes, decimal_time_bytes}
use ttlock_ble.Outcome.{ok}
use ttlock_ble.Outcome.Access.{make_byte}
use ttlock_ble.Text.{Text}
use ttlock_ble.Text.Numerals.{int_of_two_digits}

-- The numbers as `strftime` prints them.
unfoldable pub clock_text : List ℕ → Text
clock_text [] = []
clock_text (n ∷ ns) = two_digits n ++ clock_text ns

make_byte-small : (n : ℕ) → n < 100 → make_byte n ≡ ok n
unfolding make_byte
make_byte-small n h = ground arith

pair_bytes-clock_text : (ns : List ℕ) → All (λ n. n < 100) ns → pair_bytes (clock_text ns) ≡ ok ns
unfolding pair_bytes byte_of_int clock_text
pair_bytes-clock_text [] h = refl
pair_bytes-clock_text (n ∷ ns) (small, h) =
    rw (int_of_two_digits n small, make_byte-small n small, pair_bytes-clock_text ns h) refl

length-clock_text : (ns : List ℕ) → length (clock_text ns) % 2 ≡ 0
unfolding clock_text
length-clock_text [] = refl
length-clock_text (n ∷ ns) = omega (arith, length-clock_text ns)

-- Numbers below 100 are encoded as themselves, one byte each.
pub decimal_time_bytes-clock_text :
    (ns : List ℕ) → All (λ n. n < 100) ns → decimal_time_bytes (clock_text ns) ≡ ok ns
unfolding decimal_time_bytes
decimal_time_bytes-clock_text ns h = rw (length-clock_text ns) (pair_bytes-clock_text ns h)
