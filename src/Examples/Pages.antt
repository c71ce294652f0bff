-- ===== src/Examples/Pages.antt =====
-- Tests of the operation-log parser on short records, and of the text of a record.
use ttlock_ble.Base.{◌≡◌, refl, [], ◌∷◌, some}
use ttlock_ble.Base.Bytes.{Bytes, from_bytes}
use ttlock_ble.Commands.LogRecord.{LogEntry, empty_tail}
use ttlock_ble.DumpOperationLog.{format_entry}
use ttlock_ble.Text.{codes, pos}
use ttlock_ble.Commands.OperateLog.{parse_operate_log_response}
use ttlock_ble.Outcome.{raised, index_error}

-- A page whose only record has the length 0.
abbrev short_page : Bytes
short_page = 0x25 ∷ 1 ∷ 0 ∷ 1 ∷ 0 ∷ 5 ∷ 0 ∷ []

short_page_raises : parse_operate_log_response short_page ≡ raised index_error
unfolding parse_operate_log_response from_bytes
short_page_raises = refl

abbrev unlock_entry : LogEntry
unlock_entry = record {
  record_number = pos 17;
  record_type = 4;
  operate_date =
      some (record { year = 2024; month = 2; day = 29; hour = 7; minute = 5; second = 9 });
  lock_battery = 80;
  tail = record empty_tail { password = some (codes "4711"); new_password = some [] };
}

unlock_text :
    format_entry unlock_entry
    ≡ codes "#   17  2024-02-29 07:05:09  batt= 80%  KEYBOARD_PASSWORD_UNLOCK  pwd/id=4711"
unfolding format_entry
unlock_text = refl
