-- ===== src/Commands/Card.antt =====
-- ttlock_ble/commands/card.py: one indexed query of the enrolled IC cards.
use ttlock_ble.Base.{
  ℕ, Bool, true, false, ◌+◌, ◌&&◌, not, [], ◌∷◌, Option, none, some, length, drop, slice, ◌==◌,
  if◌then◌else◌,
}
use ttlock_ble.Base.Bytes.{Bytes, equal}
use ttlock_ble.Commands.Fingerprint.{start_date_sentinel, end_date_sentinel, date_unless}
use ttlock_ble.DateTime.{DateTime}
use ttlock_ble.Encoding.{response_success, parse_response_status}
use ttlock_ble.Outcome.{Result, ok, raised, value_error, runtime_error, refuse_if, ◌>>=◌, ◌>>◌}
use ttlock_ble.Outcome.Access.{to_bytes}

-- `CardEntry` of ttlock_ble/models/card_entry.py.
pub record CardEntry : Type 0 where
  pub card_id : Bytes
  pub start_date : Option DateTime
  pub end_date : Option DateTime

unfoldable pub is_permanent : CardEntry → Bool
is_permanent entry = elim entry.end_date [ none ↦ true | some t ↦ false ]

unfoldable pub has_explicit_start : CardEntry → Bool
has_explicit_start entry = elim entry.start_date [ none ↦ false | some t ↦ true ]

abbrev list_operation : ℕ
list_operation = 0x01

unfoldable pub payload_card_list : ℕ → Result Bytes
unfolding to_bytes
payload_card_list index = do raw ← to_bytes index 2; ok (list_operation ∷ raw)

-- The length of the card id for a SUCCESS answer of this many bytes.
unfoldable pub card_id_length : ℕ → Result ℕ
card_id_length size = if size == 22 then ok 8 else if size == 18 then ok 4 else raised value_error

unfoldable pub parse_card_list_response : Bytes → Result (Option CardEntry)
unfolding parse_response_status equal card_id_length
parse_card_list_response plaintext = do
  (echo, status, content) ← parse_response_status plaintext
  refuse_if (not (status == response_success)) runtime_error
  if length content == 4 && equal (drop 1 content) (list_operation ∷ 0xff ∷ 0xff ∷ [])
      then ok none
      else do
        id_length ← card_id_length (length content)
        let card_id_end = 4 + id_length
        ok (
            some (record {
              card_id = slice 4 card_id_end content;
              start_date =
                  date_unless start_date_sentinel (slice card_id_end (card_id_end + 5) content);
              end_date =
                  date_unless end_date_sentinel
                    (slice (card_id_end + 5) (card_id_end + 10) content);
            }))
