-- ===== src/Client/Log/Rounds.antt =====
-- The loop of `get_operation_log`: enough rounds, and the limit on the entries.
use ttlock_ble.Base.{ℕ, zero, suc, ◌<◌, ◌≡◌, refl, arith, List, [], Option, length}
use ttlock_ble.Base.Bytes.{Bytes}
use ttlock_ble.Client.Act.{Act, Session, continue, lift, fold}
use ttlock_ble.Client.Act.Turns.{Spends, Spends-then, round_trip-Spends}
use ttlock_ble.Client.Core.{Client, round_trip}
use ttlock_ble.Client.Log.{
  Page, finished, onward, judge, proceed, query_log, log_rounds, get_operation_log,
}
use ttlock_ble.Commands.LogRecord.{LogEntry}
use ttlock_ble.Commands.OperateLog.{payload_operate_log_request, parse_operate_log_response}
use ttlock_ble.Opcodes.{cmd_get_operate_log}
use ttlock_ble.Outcome.{Result, ok, raised, fold_value_error}

pub query_log-Spends :
    (c : Client) (sequence : ℕ) (s : Session) → Spends (length s.turns) (query_log c sequence s)
unfolding query_log Spends
query_log-Spends c sequence s = built (payload_operate_log_request sequence)
  where
    built :
        (r : Result Bytes)
        → Spends (length s.turns) (
            continue
              (λ payload. λ s'.
                continue
                  (λ plain. lift (fold fold_value_error (parse_operate_log_response plain)))
                  (round_trip c cmd_get_operate_log payload s'))
              (r, s))
    built (raised e) = tt
    built (ok payload) =
        Spends-then (length s.turns) (round_trip c cmd_get_operate_log payload s)
          (λ plain. fold fold_value_error (parse_operate_log_response plain))
          (round_trip-Spends c cmd_get_operate_log payload s)

module _ (c : Client) (max_entries : Option ℕ) where
  proceed-same :
      (f g : List LogEntry → ℕ → Act (List LogEntry)) (p : Page) (s : Session)
      → ((entries : List LogEntry) (cursor : ℕ) → f entries cursor s ≡ g entries cursor s)
      → proceed f p s ≡ proceed g p s
  unfolding proceed
  proceed-same f g (finished entries) s h = refl
  proceed-same f g (onward entries cursor) s h = h entries cursor

  queried-same :
      (f g : List LogEntry → ℕ → Act (List LogEntry)) (n next_seq : ℕ) (all : List LogEntry)
      (p : Result (List LogEntry × ℕ) × Session)
      → Spends n p
      → ((s : Session)
          → length s.turns < n
          → (entries : List LogEntry) (cursor : ℕ) → f entries cursor s ≡ g entries cursor s)
      → continue (λ (page, last). proceed f (judge max_entries next_seq all page last)) p
        ≡ continue (λ (page, last). proceed g (judge max_entries next_seq all page last)) p
  unfolding Spends
  queried-same f g n next_seq all (raised e, s) h same = refl
  queried-same f g n next_seq all (ok (page, last), s) h same =
      proceed-same f g (judge max_entries next_seq all page last) s (same s h)

  log_rounds-enough :
      (fuel rounds next_seq : ℕ) (all : List LogEntry) (s : Session)
      → length s.turns < fuel
      → length s.turns < rounds
      → log_rounds c max_entries fuel next_seq all s
        ≡ log_rounds c max_entries rounds next_seq all s
  unfolding log_rounds
  log_rounds-enough zero rounds next_seq all s h k = absurd (omega arith)
  log_rounds-enough (suc fuel) zero next_seq all s h k = absurd (omega arith)
  log_rounds-enough (suc fuel) (suc rounds) next_seq all s h k =
      queried-same _ _ (length s.turns) next_seq all (query_log c next_seq s)
        (query_log-Spends c next_seq s)
        (λ s' j entries cursor.
          log_rounds-enough fuel rounds cursor entries s' (omega arith) (omega arith))

  -- The fuel of `get_operation_log` is enough: with any number of rounds above the number of turns
  -- the outcome and the link afterwards are the same.
  pub get_operation_log-enough :
      (rounds from_sequence : ℕ) (s : Session)
      → length s.turns < rounds
      → get_operation_log c max_entries from_sequence s
        ≡ log_rounds c max_entries rounds from_sequence [] s
  unfolding get_operation_log
  get_operation_log-enough rounds from_sequence s h =
      log_rounds-enough (suc (length s.turns)) rounds from_sequence [] s (omega arith) h
