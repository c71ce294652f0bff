-- ===== src/Commands/Clock/RoundTrip.antt =====
-- The clock that is set is the clock that is read.
use ttlock_ble.Base.{ℕ, ◌+◌, ◌%◌, ◌≤◌, ◌<◌, ◌≡◌, refl, arith, true, List, [], ◌∷◌, ◌++◌, All}
use ttlock_ble.Base.Bytes.{Bytes}
use ttlock_ble.Commands.Clock.{payload_time_calibrate, date_or_raise, parse_get_lock_time_response}
use ttlock_ble.DateTime.{
  DateTime, is_leap, days_in_month, is_valid, make_datetime, decode_date6, strftime,
}
use ttlock_ble.Encoding.{response_success, parse_response_status}
use ttlock_ble.Encoding.Decimal.{clock_text, decimal_time_bytes-clock_text}
use ttlock_ble.Outcome.{ok}

-- The fields that the lock keeps, the year modulo 100.
abbrev clock_fields : DateTime → List ℕ
clock_fields t = t.year % 100 ∷ t.month ∷ t.day ∷ t.hour ∷ t.minute ∷ t.second ∷ []

days_in_month-bound : (y m : ℕ) → days_in_month y m ≤ 31
unfolding days_in_month is_leap
days_in_month-bound y m = ground arith

fields-small : (t : DateTime) → is_valid t ≡ true → All (λ n. n < 100) (clock_fields t)
unfolding is_valid
fields-small t h = let m = days_in_month-bound t.year t.month in ground (arith, m)

payload_time_calibrate-fields :
    (t : DateTime) → is_valid t ≡ true → payload_time_calibrate t ≡ ok (clock_fields t)
unfolding payload_time_calibrate strftime clock_text
payload_time_calibrate-fields t h =
    decimal_time_bytes-clock_text (clock_fields t) (fields-small t h)

-- The payload that sets the clock to a valid time of the years 2000 to 2099 has six bytes, and a
-- SUCCESS answer that carries those bytes, whatever follows them, is read as the same time.
pub parse-payload_time_calibrate :
    (t : DateTime) (echo : ℕ) (rest : Bytes)
    → is_valid t ≡ true
    → 2000 ≤ t.year
    → t.year ≤ 2099
    → (raw : Bytes) × (payload_time_calibrate t ≡ ok raw)
      × (parse_get_lock_time_response (echo ∷ response_success ∷ (raw ++ rest)) ≡ ok t)
unfolding parse_get_lock_time_response date_or_raise parse_response_status decode_date6
    make_datetime
parse-payload_time_calibrate t echo rest h low high =
    let century : 2000 + t.year % 100 ≡ t.year = omega arith in
    (clock_fields t, payload_time_calibrate-fields t h, rw (century, h) refl)
