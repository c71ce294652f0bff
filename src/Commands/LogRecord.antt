-- ===== src/Commands/LogRecord.antt =====
-- ttlock_ble/commands/log_record.py: the body of one operation-log record.
use ttlock_ble.Base.{
  ℕ, ◌+◌, ◌||◌, Bool, false, List, [], ◌∷◌, Option, none, some, length, take, drop, slice,
  get_elem?, ltb, leb, ◌==◌, if◌then◌else◌,
}
use ttlock_ble.Base.Bytes.{Bytes, from_bytes}
use ttlock_ble.DateTime.{DateTime, decode_date5}
use ttlock_ble.Encoding.{decode_mac6}
use ttlock_ble.Text.{Text, ℤ, decimal, decode_replacing}

-- `_decode_pwd_pair`, once the first length is known to fit.
unfoldable pub pwd_pair_at : ℕ → Bytes → Option Text × Option Text × ℕ
unfolding decode_replacing
pwd_pair_at pwd_len payload =
    let pwd = decode_replacing (slice 1 (1 + pwd_len) payload) in
    let consumed = 1 + pwd_len in
    elim (get_elem? payload consumed) [
      | none ↦ (some pwd, none, consumed)
      | some new_len ↦ (
        some pwd,
        some (decode_replacing (slice (consumed + 1) (consumed + 1 + new_len) payload)),
        consumed + 1 + new_len,
      )
    ]

unfoldable pub decode_pwd_pair : Bytes → Option Text × Option Text × ℕ
unfolding pwd_pair_at
decode_pwd_pair [] = (none, none, 0)
decode_pwd_pair (pwd_len ∷ rest) =
    if ltb (length (pwd_len ∷ rest)) (1 + pwd_len)
    then (none, none, 0)
    else pwd_pair_at pwd_len (pwd_len ∷ rest)

pub record RecordTail : Type 0 where
  pub uid : Option ℕ
  pub record_id : Option ℕ
  pub password : Option Text
  pub new_password : Option Text
  pub delete_date : Option DateTime
  pub key_id : Option ℕ
  pub accessory_battery : Option ℕ
  pub start_date : Option DateTime
  pub end_date : Option DateTime

abbrev pub empty_tail : RecordTail
empty_tail = record {
  uid = none;
  record_id = none;
  password = none;
  new_password = none;
  delete_date = none;
  key_id = none;
  accessory_battery = none;
  start_date = none;
  end_date = none;
}

unfoldable pub decode_app_uid_record_id : Bytes → RecordTail
decode_app_uid_record_id payload =
    if ltb (length payload) 8 then empty_tail else record empty_tail {
      uid = some (from_bytes (take 4 payload));
      record_id = some (from_bytes (slice 4 8 payload));
    }

unfoldable pub decode_remote_control_key : Bytes → RecordTail
decode_remote_control_key payload =
    if ltb (length payload) 9 then empty_tail else record empty_tail {
      uid = some (from_bytes (take 4 payload));
      record_id = some (from_bytes (slice 4 8 payload));
      key_id = get_elem? payload 8;
    }

unfoldable pub decode_passcode_pair : Bytes → RecordTail
unfolding decode_pwd_pair
decode_passcode_pair payload =
    let (password, new_password, consumed) = decode_pwd_pair payload in
    record empty_tail { password = password; new_password = new_password }

unfoldable pub decode_passcode_only : Bytes → RecordTail
unfolding decode_pwd_pair
decode_passcode_only payload =
    let (password, new_password, consumed) = decode_pwd_pair payload in
    record empty_tail { password = password }

unfoldable pub decode_clear_all_passcodes : Bytes → RecordTail
unfolding decode_pwd_pair
decode_clear_all_passcodes payload =
    if ltb (length payload) 5 then empty_tail else record empty_tail {
      delete_date = decode_date5 (take 5 payload);
      password = if ltb 5 (length payload) then (decode_pwd_pair (drop 5 payload)).0 else none;
    }

unfoldable pub decode_card_number : Bytes → RecordTail
decode_card_number [] = empty_tail
decode_card_number (b ∷ bs) = record empty_tail { password = some (decimal (from_bytes (b ∷ bs))) }

unfoldable pub decode_six_byte_id : Bytes → RecordTail
decode_six_byte_id payload =
    if ltb (length payload) 6
    then empty_tail
    else record empty_tail { password = some (decimal (from_bytes (take 6 payload))) }

unfoldable pub decode_short_id : Bytes → RecordTail
decode_short_id payload =
    if ltb (length payload) 2
    then empty_tail
    else record empty_tail { password = some (decimal (from_bytes (take 2 payload))) }

unfoldable pub decode_accessory_battery : Bytes → RecordTail
decode_accessory_battery [] = empty_tail
decode_accessory_battery (b ∷ bs) = record empty_tail { accessory_battery = some b }

unfoldable pub decode_mac_only : Bytes → RecordTail
decode_mac_only payload =
    if ltb (length payload) 6
    then empty_tail
    else record empty_tail { password = some (decode_mac6 (take 6 payload)) }

-- `payload[i] if len(payload) >= i + 1 else None` is `get_elem?`.
unfoldable pub decode_key_fob : Bytes → RecordTail
decode_key_fob payload = if ltb (length payload) 6 then empty_tail else record empty_tail {
  password = some (decode_mac6 (take 6 payload));
  key_id = get_elem? payload 6;
  accessory_battery = get_elem? payload 7;
}

unfoldable pub decode_wireless_keypad : Bytes → RecordTail
decode_wireless_keypad payload = if ltb (length payload) 6 then empty_tail else record empty_tail {
  password = some (decode_mac6 (take 6 payload));
  accessory_battery = get_elem? payload 6;
}

unfoldable pub decode_added_passcode : Bytes → RecordTail
decode_added_passcode [] = empty_tail
decode_added_passcode (pwd_len ∷ rest) =
    let payload = pwd_len ∷ rest in
    let tail = drop (1 + pwd_len) payload in
    if ltb (length payload) (1 + pwd_len) then empty_tail else record empty_tail {
      password = some (decode_replacing (slice 1 (1 + pwd_len) payload));
      start_date = if leb 5 (length tail) then decode_date5 (take 5 tail) else none;
      end_date = if leb 10 (length tail) then decode_date5 (slice 5 10 tail) else none;
    }

-- `value in frozenset`
is_in : ℕ → List ℕ → Bool
is_in value [] = false
is_in value (x ∷ xs) = value == x || is_in value xs

-- `_TAIL_DECODERS_BY_BUCKET`
unfoldable pub tail_decoders_by_bucket : List (List ℕ × (Bytes → RecordTail))
tail_decoders_by_bucket =
    (1 ∷ 26 ∷ 28 ∷ 41 ∷ 52 ∷ 75 ∷ 76 ∷ 77 ∷ [], decode_app_uid_record_id)
    ∷ (4 ∷ 5 ∷ 6 ∷ 9 ∷ 10 ∷ 11 ∷ 12 ∷ 13 ∷ 34 ∷ 38 ∷ 78 ∷ 92 ∷ [], decode_passcode_pair)
    ∷ (7 ∷ [], decode_passcode_only)
    ∷ (8 ∷ [], decode_clear_all_passcodes)
    ∷ (15 ∷ 17 ∷ 18 ∷ 25 ∷ 35 ∷ 39 ∷ 51 ∷ 74 ∷ 80 ∷ 91 ∷ [], decode_card_number)
    ∷ (19 ∷ [], decode_mac_only)
    ∷ (20 ∷ 21 ∷ 22 ∷ 23 ∷ 33 ∷ 40 ∷ 79 ∷ [], decode_six_byte_id)
    ∷ (30 ∷ 31 ∷ [], decode_accessory_battery)
    ∷ (37 ∷ [], decode_remote_control_key)
    ∷ (55 ∷ 82 ∷ [], decode_key_fob)
    ∷ (56 ∷ [], decode_wireless_keypad)
    ∷ (57 ∷ 58 ∷ 61 ∷ 62 ∷ [], decode_short_id)
    ∷ (67 ∷ 68 ∷ 69 ∷ 70 ∷ 71 ∷ 72 ∷ 81 ∷ 83 ∷ 84 ∷ 85 ∷ 86 ∷ 87 ∷ 88 ∷ 89 ∷ [], decode_six_byte_id)
    ∷ (93 ∷ [], decode_added_passcode)
    ∷ (94 ∷ 95 ∷ 96 ∷ 97 ∷ 98 ∷ 99 ∷ 100 ∷ [], decode_mac_only)
    ∷ []

-- `_TAIL_DECODERS`: the dictionary made of the buckets, in which a later bucket would win.
unfoldable pub tail_decoder : List (List ℕ × (Bytes → RecordTail)) → ℕ → Option (Bytes → RecordTail)
unfolding is_in
tail_decoder [] record_type = none
tail_decoder ((types, decoder) ∷ rest) record_type = elim (tail_decoder rest record_type) [
  | some later ↦ some later
  | none ↦ if is_in record_type types then some decoder else none
]

-- `record_type` is the number itself, of which `LogOperate.coerce` makes a member of equal value.
pub record LogEntry : Type 0 where
  pub record_number : ℤ
  pub record_type : ℕ
  pub operate_date : Option DateTime
  pub lock_battery : ℕ
  pub tail : RecordTail

apply_decoder : Option (Bytes → RecordTail) → Bytes → RecordTail
apply_decoder none payload = empty_tail
apply_decoder (some decoder) payload = decoder payload

unfoldable pub decode_log_record : ℕ → Option DateTime → ℕ → ℤ → Bytes → ℕ → ℕ → LogEntry
unfolding tail_decoder tail_decoders_by_bucket apply_decoder
decode_log_record record_type operate_date battery sequence raw idx rec_end = record {
  record_number = sequence;
  record_type = record_type;
  operate_date = operate_date;
  lock_battery = battery;
  tail = apply_decoder (tail_decoder tail_decoders_by_bucket record_type) (slice idx rec_end raw);
}
