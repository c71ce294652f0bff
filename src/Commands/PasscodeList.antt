-- ===== src/Commands/PasscodeList.antt =====
-- ttlock_ble/commands/passcode_list.py: one page of the keypad passcodes.
pub mod Cyclic
use ttlock_ble.Base.{
  ℕ, Bool, ◌+◌, ◌-◌, ◌%◌, not, List, [], ◌∷◌, Option, none, some, length, drop, slice, ltb, leb,
  ◌==◌, if◌then◌else◌,
}
use ttlock_ble.Base.Bytes.{Bytes, from_bytes}
use ttlock_ble.Commands.Clock.{date_or_raise}
use ttlock_ble.Commands.Passcode.{permanent, period, circle}
use ttlock_ble.DateTime.{DateTime, decode_date5}
use ttlock_ble.Encoding.{response_success, parse_response_status}
use ttlock_ble.Outcome.{Result, ok, raised, value_error, runtime_error, refuse_if, ◌>>=◌, ◌>>◌}
use ttlock_ble.Outcome.Access.{byte_at, to_bytes}
use ttlock_ble.Text.{Text, codes, decode_ascii}

-- `CyclicSchedule` of ttlock_ble/models/cyclic_schedule.py.
pub record CyclicSchedule : Type 0 where
  pub day_or_preset : Text
  pub start_hour : ℕ
  pub start_minute : ℕ
  pub duration_hours : ℕ

unfoldable pub end_hour : CyclicSchedule → ℕ
end_hour schedule = (schedule.start_hour + schedule.duration_hours) % 24

-- `PasscodeEntry` of ttlock_ble/models/passcode_entry.py.
pub record PasscodeEntry : Type 0 where
  pub passcode : Text
  pub pwd_type : ℕ
  pub start_date : Option DateTime
  pub end_date : Option DateTime
  pub cyclic_schedule : Option CyclicSchedule

unfoldable pub is_permanent : PasscodeEntry → Bool
is_permanent entry = entry.pwd_type == permanent

-- `_TRAILER_LENGTH_BY_TYPE.get`
unfoldable pub trailer_length_by_type : ℕ → Option ℕ
trailer_length_by_type kind =
    if kind == permanent
    then some 5
    else if kind == period
    then some 10
    else if kind == circle
    then some 7
    else none

-- `_CYCLIC_BASE_SELECTORS`, by descending base as `_CYCLIC_BASES_DESCENDING` has it.
unfoldable pub cyclic_base_selectors : List (ℕ × Text)
cyclic_base_selectors =
    (232, codes "Weekend")
    ∷ (192, codes "Sunday")
    ∷ (168, codes "Saturday")
    ∷ (144, codes "Friday")
    ∷ (120, codes "Thursday")
    ∷ (96, codes "Wednesday")
    ∷ (72, codes "Tuesday")
    ∷ (48, codes "Monday")
    ∷ (24, codes "Workdays")
    ∷ (0, codes "Daily")
    ∷ []

-- `next(base for base in ... if base <= low_byte)`, with the base's name. Base 0 ends the search.
unfoldable pub base_selector : List (ℕ × Text) → ℕ → ℕ × Text
base_selector [] low_byte = (0, [])
base_selector ((base, name) ∷ rest) low_byte =
    if leb base low_byte then (base, name) else base_selector rest low_byte

unfoldable pub decode_cyclic_schedule : Bytes → Result CyclicSchedule
unfolding cyclic_base_selectors base_selector byte_at
decode_cyclic_schedule trailer = do
  low_byte ← byte_at trailer 6
  hour ← byte_at trailer 3
  minute ← byte_at trailer 4
  let (base, name) = base_selector cyclic_base_selectors low_byte
  ok (record {
    day_or_preset = name;
    start_hour = hour;
    start_minute = minute;
    duration_hours = low_byte - base + 1;
  })

unfoldable pub payload_passcode_list : ℕ → Result Bytes
unfolding to_bytes
payload_passcode_list sequence = to_bytes sequence 2

unfoldable pub decode_date_or_raise : Bytes → Result DateTime
unfolding date_or_raise
decode_date_or_raise raw = date_or_raise (decode_date5 raw)

-- The validity of an entry, by its type: the dates and the schedule.
pub record Validity : Type 0 where
  pub starts : Option DateTime
  pub ends : Option DateTime
  pub schedule : Option CyclicSchedule

unfoldable pub decode_validity : ℕ → Bytes → Result Validity
unfolding decode_date_or_raise
decode_validity kind trailer =
    if kind == permanent
    then (do
      start ← decode_date_or_raise (slice 0 5 trailer)
      ok (record { starts = some start; ends = none; schedule = none }))
    else if kind == period
    then (do
      start ← decode_date_or_raise (slice 0 5 trailer)
      end ← decode_date_or_raise (slice 5 10 trailer)
      ok (record { starts = some start; ends = some end; schedule = none }))
    else do
      cyclic ← decode_cyclic_schedule trailer
      ok (record { starts = none; ends = none; schedule = some cyclic })

-- The entry, from the digits of its code and its trailer.
unfoldable pub decode_entry : ℕ → ℕ → Bytes → Bytes → Result PasscodeEntry
unfolding decode_validity
decode_entry kind trailer_length new_pwd trailer = do
  refuse_if (ltb (length trailer) trailer_length) value_error
  valid ← decode_validity kind trailer
  passcode ← decode_ascii new_pwd
  ok (record {
    passcode = passcode;
    pwd_type = kind;
    start_date = valid.starts;
    end_date = valid.ends;
    cyclic_schedule = valid.schedule;
  })

-- One item whose type has a trailer of `trailer_length` bytes.
unfoldable pub decode_item : ℕ → ℕ → Bytes → Result PasscodeEntry
unfolding byte_at decode_entry
decode_item kind trailer_length item = do
  new_pwd_length ← byte_at item 2
  let new_pwd = slice 3 (3 + new_pwd_length) item
  let pwd_length_offset = 3 + new_pwd_length
  refuse_if (leb (length item) pwd_length_offset) value_error
  pwd_length ← byte_at item pwd_length_offset
  let trailer_offset = pwd_length_offset + 1 + pwd_length
  decode_entry kind trailer_length new_pwd
      (slice trailer_offset (trailer_offset + trailer_length) item)

-- An item of a type with no trailer layout is skipped.
unfoldable pub decode_typed : ℕ → Option ℕ → Bytes → Result (Option PasscodeEntry)
unfolding decode_item
decode_typed kind none item = ok none
decode_typed kind (some trailer_length) item = do
  entry ← decode_item kind trailer_length item
  ok (some entry)

-- The entry, if there is one, and the next sequence number.
unfoldable pub parse_passcode_list_response : Bytes → Result (Option PasscodeEntry × ℕ)
unfolding parse_response_status byte_at decode_typed
parse_passcode_list_response plaintext = do
  (echo, status, content) ← parse_response_status plaintext
  refuse_if (not (status == response_success)) runtime_error
  let next_sequence = from_bytes (slice 2 4 content)
  let item = drop 4 content
  if ltb (length content) 4
      then ok (none, 0)
      else if ltb (length item) 4
      then ok (none, next_sequence)
      else do
        kind ← byte_at item 1
        entry ← decode_typed kind (trailer_length_by_type kind) item
        ok (entry, next_sequence)
