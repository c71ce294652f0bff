-- ===== src/Commands/OperateLog.antt =====
-- ttlock_ble/commands/operate_log.py: one page of the operation log.
pub mod Raises
use ttlock_ble.Base.{
  ℕ, zero, suc, ◌+◌, ◌||◌, not, List, [], ◌∷◌, ◌++◌, length, take, slice, ltb, ◌==◌, if◌then◌else◌,
}
use ttlock_ble.Base.Bytes.{Bytes, from_bytes}
use ttlock_ble.Commands.LogRecord.{LogEntry, decode_log_record}
use ttlock_ble.DateTime.{decode_date6}
use ttlock_ble.Encoding.{response_success, parse_response_status}
use ttlock_ble.Outcome.{Result, ok, ◌>>=◌}
use ttlock_ble.Outcome.Access.{byte_at, to_bytes}
use ttlock_ble.Text.{negsuc, add_ℕ}

unfoldable pub payload_operate_log_request : ℕ → Result Bytes
unfolding to_bytes
payload_operate_log_request sequence = to_bytes sequence 2

-- The record whose length byte stood before `rec_start`. No test keeps its indices below the end.
unfoldable pub read_record : ℕ → ℕ → Bytes → ℕ → ℕ → Result LogEntry
unfolding byte_at add_ℕ
read_record sequence done raw rec_start rec_len = do
  record_type ← byte_at raw rec_start
  battery ← byte_at raw (rec_start + 7)
  ok (
      decode_log_record record_type (decode_date6 (slice (rec_start + 1) (rec_start + 7) raw))
        battery (add_ℕ sequence (negsuc done)) raw (rec_start + 8) (rec_start + rec_len))

-- `while idx < len(data)`: `idx` grows in every round, so `len(data)` rounds are enough.
unfoldable pub read_records : ℕ → ℕ → List LogEntry → Bytes → ℕ → Result (List LogEntry)
unfolding read_record
read_records zero sequence entries raw idx = ok entries
read_records (suc fuel) sequence entries raw idx =
    let more = do
      rec_len ← byte_at raw idx
      let rec_start = idx + 1
      let next = do
        entry ← read_record sequence (length entries) raw rec_start rec_len
        read_records fuel sequence (entries ++ entry ∷ []) raw (rec_start + rec_len)
      if ltb (length raw) (rec_start + rec_len) then ok entries else next
    in if ltb idx (length raw) then more else ok entries

unfoldable pub parse_operate_log_response : Bytes → Result (List LogEntry × ℕ)
unfolding parse_response_status read_records
parse_operate_log_response plaintext = do
  (echo, status, raw) ← parse_response_status plaintext
  let total_len = from_bytes (take 2 raw)
  let sequence = from_bytes (slice 2 4 raw)
  let paged = do entries ← read_records (length raw) sequence [] raw 4; ok (entries, sequence)
  if not (status == response_success) || ltb (length raw) 2 || total_len == 0
      then ok ([], 0)
      else paged
