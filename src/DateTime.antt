-- ===== src/DateTime.antt =====
-- A naive `datetime.datetime`, as its constructor accepts it, and the clock bytes of
-- ttlock_ble/commands/encoding.py and clock.py.
use ttlock_ble.Base.{
  ℕ, ◌+◌, ◌/◌, ◌%◌, Bool, not, ◌&&◌, ◌||◌, [], ◌∷◌, ◌++◌, Option, none, some, ltb, leb, ◌==◌,
  if◌then◌else◌,
}
use ttlock_ble.Base.Bytes.{Bytes}
use ttlock_ble.Text.{Text}

-- Microseconds are left out: the lock's clock has none.
pub record DateTime : Type 0 where
  pub year : ℕ
  pub month : ℕ
  pub day : ℕ
  pub hour : ℕ
  pub minute : ℕ
  pub second : ℕ

unfoldable pub is_leap : ℕ → Bool
is_leap y = y % 4 == 0 && (not (y % 100 == 0) || y % 400 == 0)

unfoldable pub days_in_month : ℕ → ℕ → ℕ
unfolding is_leap
days_in_month y m =
    if m == 2
    then (if is_leap y then 29 else 28)
    else if m == 4 || m == 6 || m == 9 || m == 11
    then 30
    else 31

unfoldable pub is_valid : DateTime → Bool
is_valid t =
    leb 1 t.year
    && leb t.year 9999
    && leb 1 t.month
    && leb t.month 12
    && leb 1 t.day
    && leb t.day (days_in_month t.year t.month)
    && ltb t.hour 24
    && ltb t.minute 60
    && ltb t.second 60

-- `dt.datetime(...)`, with `none` for its `ValueError`.
unfoldable pub make_datetime : DateTime → Option DateTime
unfolding is_valid
make_datetime t = if is_valid t then some t else none

-- `decode_date5`
unfoldable pub decode_date5 : Bytes → Option DateTime
unfolding make_datetime
decode_date5 (yy ∷ mm ∷ dd ∷ hh ∷ mi ∷ rest) =
    make_datetime
      (record { year = 2000 + yy; month = mm; day = dd; hour = hh; minute = mi; second = 0 })
decode_date5 _ = none

-- `decode_date6`
unfoldable pub decode_date6 : Bytes → Option DateTime
unfolding make_datetime
decode_date6 (yy ∷ mm ∷ dd ∷ hh ∷ mi ∷ ss ∷ rest) =
    make_datetime
      (record { year = 2000 + yy; month = mm; day = dd; hour = hh; minute = mi; second = ss })
decode_date6 _ = none

abbrev pub two_digits : ℕ → Text
two_digits n = (b'0' + n / 10) ∷ (b'0' + n % 10) ∷ []

-- `local_time.strftime("%y%m%d%H%M%S")`
unfoldable pub strftime : DateTime → Text
strftime t =
    two_digits (t.year % 100)
    ++ (two_digits t.month
        ++ (two_digits t.day
            ++ (two_digits t.hour ++ (two_digits t.minute ++ two_digits t.second))))
