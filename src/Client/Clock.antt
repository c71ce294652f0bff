-- ===== src/Client/Clock.antt =====
-- `sync_time` of `TTLockClient`.
use ttlock_ble.Base.{ℕ, zero, suc, ◌+◌, ◌-◌, ◌*◌, ◌/◌, ◌≡◌, refl, ltb, leb, if◌then◌else◌}
use ttlock_ble.Client.Act.{Act, ◌>>=◌, ◌>>◌, pure}
use ttlock_ble.Client.Control.{calibrate_time, get_lock_time}
use ttlock_ble.Client.Core.{Client}
use ttlock_ble.DateTime.{DateTime, days_in_month}
use ttlock_ble.Text.{ℤ, pos, negate}

-- The days of the year before a month.
days_before_month : ℕ → ℕ → ℕ
unfolding days_in_month
days_before_month year zero = 0
days_before_month year (suc zero) = 0
days_before_month year (suc (suc m)) = days_before_month year (suc m) + days_in_month year (suc m)

-- Seconds from the first day of year 1 on.
unfoldable pub seconds_of : DateTime → ℕ
unfolding days_before_month
seconds_of t =
    let before = t.year - 1 in
    let days =
      before * 365
      + before / 4
      - before / 100
      + before / 400
      + days_before_month t.year t.month
      + (t.day - 1) in
    ((days * 24 + t.hour) * 60 + t.minute) * 60 + t.second

-- `(lock_time - reference).total_seconds()`
unfoldable pub drift_of : DateTime → DateTime → ℤ
unfolding seconds_of
drift_of lock_time reference =
    let a = seconds_of lock_time in
    let b = seconds_of reference in if leb b a then pos (a - b) else negate (b - a)

-- `abs(drift)`
unfoldable pub magnitude : ℤ → ℕ
magnitude (pos n) = n
magnitude (ℤ.negsuc n) = suc n

-- The threshold is in whole seconds: the drift has no fraction, and is above a threshold if and only
-- if it is above the whole seconds of it.
unfoldable pub sync_time : Client → DateTime → ℕ → Act ℤ
unfolding drift_of magnitude
sync_time c local_time drift_threshold_seconds = do
  lock_time ← get_lock_time c
  let drift = drift_of lock_time local_time
  if ltb drift_threshold_seconds (magnitude drift) then calibrate_time c local_time else pure tt
  pure drift

-- A leap year and a day, and two seconds, less a day.
one_year :
    drift_of
      (record { year = 2025; month = 3; day = 1; hour = 0; minute = 0; second = 1 })
      (record { year = 2024; month = 2; day = 28; hour = 23; minute = 59; second = 59 })
    ≡ pos (367 * 86400 - 86400 + 2)
unfolding drift_of
one_year = refl
