-- ===== src/Client/Log.antt =====
-- `get_operation_log` of `TTLockClient`: pages, a cursor, and the record numbers seen before.
pub mod Entries
pub mod Returned
pub mod Rounds
pub mod Collected
use ttlock_ble.Base.{
  ℕ, zero, suc, Bool, true, false, ◌||◌, List, [], ◌∷◌, ◌++◌, Option, none, some, length, take, leb,
  ◌==◌, if◌then◌else◌,
}
use ttlock_ble.Base.Bytes.{Bytes}
use ttlock_ble.Client.Act.{Act, Session, ◌>>=◌, pure, raise, lift, fold}
use ttlock_ble.Client.Core.{Client, round_trip}
use ttlock_ble.Commands.LogRecord.{LogEntry}
use ttlock_ble.Commands.OperateLog.{payload_operate_log_request, parse_operate_log_response}
use ttlock_ble.Opcodes.{cmd_get_operate_log}
use ttlock_ble.Outcome.{Result, ok, raised, tt_lock_error, fold_value_error}
use ttlock_ble.Text.{ℤ, pos, negsuc}

unfoldable pub same_number : ℤ → ℤ → Bool
same_number (pos m) (pos n) = m == n
same_number (negsuc m) (negsuc n) = m == n
same_number (pos m) (negsuc n) = false
same_number (negsuc m) (pos n) = false

-- `number in seen`
unfoldable pub is_seen : ℤ → List ℤ → Bool
unfolding same_number
is_seen number [] = false
is_seen number (other ∷ seen) = same_number number other || is_seen number seen

-- `[e for e in page if e.record_number not in seen]`
unfoldable pub new_entries_of : List ℤ → List LogEntry → List LogEntry
unfolding is_seen
new_entries_of seen [] = []
new_entries_of seen (e ∷ page) =
    if is_seen e.record_number seen then new_entries_of seen page else e ∷ new_entries_of seen page

unfoldable pub record_numbers : List LogEntry → List ℤ
record_numbers [] = []
record_numbers (e ∷ entries) = LogEntry.record_number e ∷ record_numbers entries

-- `max_entries is not None and len(all_entries) >= max_entries`
reaches : Option ℕ → ℕ → Bool
reaches none n = false
reaches (some max_entries) n = leb max_entries n

unfoldable pub cut_to : {A : Type 0} → Option ℕ → List A → List A
cut_to none entries = entries
cut_to (some max_entries) entries = take max_entries entries

-- What a round decides: return this list, or ask again from this cursor.
pub data Page : Type 0 where
  finished : List LogEntry → Page
  onward : List LogEntry → ℕ → Page

-- The body of the loop after the page is parsed.
unfoldable pub judge : Option ℕ → ℕ → List LogEntry → List LogEntry → ℕ → Page
unfolding new_entries_of record_numbers reaches cut_to
judge max_entries next_seq all_entries page last_seq =
    let new_entries = new_entries_of (record_numbers all_entries) page in
    let all_after = all_entries ++ new_entries in
    if length new_entries == 0
    then finished all_entries
    else if reaches max_entries (length all_after)
    then finished (cut_to max_entries all_after)
    else if last_seq == 0 || last_seq == next_seq
    then finished all_after
    else onward all_after last_seq

unfoldable pub proceed : (List LogEntry → ℕ → Act (List LogEntry)) → Page → Act (List LogEntry)
proceed more (finished entries) = pure entries
proceed more (onward entries cursor) = more entries cursor

-- One query of the log.
unfoldable pub query_log : Client → ℕ → Act (List LogEntry × ℕ)
query_log c sequence = do
  payload ← lift (payload_operate_log_request sequence)
  plain ← round_trip c cmd_get_operate_log payload
  lift (fold fold_value_error (parse_operate_log_response plain))

-- `while True`; out of fuel it raises.
unfoldable pub log_rounds : Client → Option ℕ → ℕ → ℕ → List LogEntry → Act (List LogEntry)
unfolding query_log judge proceed
log_rounds c max_entries zero next_seq all_entries = raise tt_lock_error
log_rounds c max_entries (suc fuel) next_seq all_entries = do
  (page, last_seq) ← query_log c next_seq
  proceed (λ entries cursor. log_rounds c max_entries fuel cursor entries)
      (judge max_entries next_seq all_entries page last_seq)

-- A round without a turn left hears no reply and raises, so one round more than turns is enough.
unfoldable pub get_operation_log : Client → Option ℕ → ℕ → Act (List LogEntry)
get_operation_log c max_entries from_sequence s =
    log_rounds c max_entries (suc (length s.turns)) from_sequence [] s
