-- ===== src/Commands/Fingerprint.antt =====
-- ttlock_ble/commands/fingerprint.py: one indexed query of the enrolled fingerprints.
use ttlock_ble.Base.{
  ℕ, Bool, true, false, ◌&&◌, not, [], ◌∷◌, Option, none, some, length, drop, slice, ltb, ◌==◌,
  if◌then◌else◌,
}
use ttlock_ble.Base.Bytes.{Bytes, equal, from_bytes}
use ttlock_ble.DateTime.{DateTime, decode_date5}
use ttlock_ble.Encoding.{response_success, parse_response_status}
use ttlock_ble.Outcome.{Result, ok, value_error, runtime_error, refuse_if, ◌>>=◌, ◌>>◌}
use ttlock_ble.Outcome.Access.{to_bytes}

abbrev pub start_date_sentinel : Bytes
start_date_sentinel = 0x00 ∷ 0x01 ∷ 0x01 ∷ 0x00 ∷ 0x00 ∷ []

abbrev pub end_date_sentinel : Bytes
end_date_sentinel = 0x63 ∷ 0x01 ∷ 0x01 ∷ 0x00 ∷ 0x00 ∷ []

-- `FingerprintEntry` of ttlock_ble/models/fingerprint_entry.py.
pub record FingerprintEntry : Type 0 where
  pub fingerprint_id : Bytes
  pub slot : ℕ
  pub start_date : Option DateTime
  pub end_date : Option DateTime

unfoldable pub is_permanent : FingerprintEntry → Bool
is_permanent entry = elim entry.end_date [ none ↦ true | some t ↦ false ]

unfoldable pub has_explicit_start : FingerprintEntry → Bool
has_explicit_start entry = elim entry.start_date [ none ↦ false | some t ↦ true ]

-- `None if raw == SENTINEL else decode_date5(raw)`
unfoldable pub date_unless : Bytes → Bytes → Option DateTime
unfolding equal
date_unless sentinel raw = if equal raw sentinel then none else decode_date5 raw

abbrev list_operation : ℕ
list_operation = 0x06

unfoldable pub payload_fingerprint_list : ℕ → Result Bytes
unfolding to_bytes
payload_fingerprint_list index = do raw ← to_bytes index 2; ok (list_operation ∷ raw)

-- The end-of-list answer, then entries of at least 20 bytes.
unfoldable pub parse_fingerprint_list_response : Bytes → Result (Option FingerprintEntry)
unfolding parse_response_status equal
parse_fingerprint_list_response plaintext = do
  (echo, status, content) ← parse_response_status plaintext
  refuse_if (not (status == response_success)) runtime_error
  if length content == 4 && equal (drop 1 content) (list_operation ∷ 0xff ∷ 0xff ∷ [])
      then ok none
      else do
        refuse_if (ltb (length content) 20) value_error
        ok (
            some (record {
              fingerprint_id = slice 4 8 content;
              slot = from_bytes (slice 8 10 content);
              start_date = date_unless start_date_sentinel (slice 10 15 content);
              end_date = date_unless end_date_sentinel (slice 15 20 content);
            }))
