-- ===== src/Commands/Passcode.antt =====
-- ttlock_ble/commands/passcode.py: provisioning keypad passcodes.
use ttlock_ble.Base.{ℕ, not, ◌&&◌, ◌||◌, [], ◌∷◌, ◌++◌, length, leb, ◌==◌, if◌then◌else◌}
use ttlock_ble.Base.Bytes.{Bytes}
use ttlock_ble.Encoding.{decimal_time_bytes}
use ttlock_ble.Outcome.{Result, ok, value_error, refuse_if, ◌>>=◌, ◌>>◌}
use ttlock_ble.Outcome.Access.{make_byte}
use ttlock_ble.Text.{Text, codes, is_decimal}

-- `KeyboardPwdType`
abbrev pub permanent : ℕ
permanent = 1

abbrev pub count : ℕ
count = 2

abbrev pub period : ℕ
period = 3

abbrev pub circle : ℕ
circle = 4

-- `PwdOperateType`
abbrev pub clear : ℕ
clear = 1

abbrev pub add : ℕ
add = 2

abbrev pub remove_one : ℕ
remove_one = 3

abbrev pub default_start : Text
default_start = codes "0001311400"

abbrev pub default_end : Text
default_end = codes "9912311400"

unfoldable pub check_passcode : Text → Result (Unit {0})
check_passcode code =
    refuse_if (not (leb 4 (length code) && leb (length code) 9) || not (is_decimal code))
      value_error

-- A checked code is ASCII, so `code.encode("ascii")` is the code itself.
unfoldable pub payload_passcode_add : ℕ → Text → Text → Text → Result Bytes
unfolding check_passcode make_byte
payload_passcode_add pwd_type code start_date end_date = do
  check_passcode code
  kind ← make_byte pwd_type
  start ← decimal_time_bytes start_date
  let out = add ∷ kind ∷ length code ∷ (code ++ start)
  if not (pwd_type == permanent)
      then (do until ← decimal_time_bytes end_date; ok (out ++ until))
      else ok out

unfoldable pub payload_passcode_delete : ℕ → Text → Result Bytes
unfolding check_passcode make_byte
payload_passcode_delete pwd_type code = do
  check_passcode code
  kind ← make_byte pwd_type
  ok (remove_one ∷ kind ∷ length code ∷ code)

unfoldable pub payload_passcode_clear : Bytes
payload_passcode_clear = clear ∷ []
