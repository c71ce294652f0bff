-- ===== src/DumpOperationLog.antt =====
-- scripts/dump_operation_log.py: the choice of a key, the text of a record and of the whole log. The
-- moment of the run is given, as is what the run against the lock returns.
pub mod Agreement
use ttlock_ble.Base.{
  ℕ, zero, suc, ◌-◌, ◌&&◌, Bool, true, false, ◌⊎◌, inl, inr, List, [], ◌∷◌, ◌++◌, Option, none,
  some, length, leb, ◌==◌, if◌then◌else◌,
}
use ttlock_ble.Cli.{is_target, keys_of_rows}
use ttlock_ble.Cli.Runs.{Run, Surroundings, passes, with_client}
use ttlock_ble.Client.Core.{Client}
use ttlock_ble.Client.Log.{get_operation_log}
use ttlock_ble.Commands.LogRecord.{LogEntry}
use ttlock_ble.DateTime.{DateTime, two_digits}
use ttlock_ble.Json.{Value, Members, str_of_int}
use ttlock_ble.Models.LogOperate.{LogOperate, coerce}
use ttlock_ble.Models.LogOperate.Names.{name_of}
use ttlock_ble.Models.VirtualKey.{VirtualKey}
use ttlock_ble.Outcome.{Result, ok, raised, index_error, exit_error}
use ttlock_ble.Text.{Text, codes, decimal}
use ttlock_ble.Transport.Finder.{lower, without_colons}

-- `_load_keys`, which exits when there is no store.
unfoldable pub load_or_exit :
    (Value → Text) → Option (List Members) → Result (List (Option VirtualKey))
unfolding keys_of_rows
load_or_exit repr none = raised exit_error
load_or_exit repr (some rows) = keys_of_rows repr rows

search_key : Text → List VirtualKey → Result VirtualKey
unfolding is_target
search_key target [] = raised exit_error
search_key target (k ∷ ks) =
    let later = search_key target ks in if is_target target k then ok k else later

-- `_resolve` on the keys of the store: without a target, `keys[0]`.
unfoldable pub resolve_key : Option Text → List VirtualKey → Result VirtualKey
unfolding search_key
resolve_key none [] = raised index_error
resolve_key none (k ∷ ks) = ok k
resolve_key (some target) keys = search_key target keys

spaces : ℕ → Text
spaces zero = []
spaces (suc n) = 32 ∷ spaces n

-- `f"{text:>width}"` of a number.
pad_left : ℕ → Text → Text
unfolding spaces
pad_left width t = spaces (width - length t) ++ t

minutes_text : DateTime → Text
minutes_text t =
    decimal t.year
    ++ (b'-' ∷ two_digits t.month
        ++ (b'-' ∷ two_digits t.day ++ (32 ∷ two_digits t.hour ++ (b':' ∷ two_digits t.minute))))

-- `when`
when_of : Option DateTime → Text
unfolding minutes_text
when_of none = codes "?"
when_of (some t) = minutes_text t ++ (b':' ∷ two_digits t.second)

label_of : LogOperate ⊎ ℕ → Text
unfolding name_of
label_of (inl m) = name_of m
label_of (inr value) = codes "UNKNOWN(" ++ decimal value ++ codes ")"

-- A part for an optional field.
part : {A : Type 0} → Text → (A → Text) → Text → Option A → List Text
part before print after none = []
part before print after (some a) = (before ++ print a ++ after) ∷ []

given : Option Text → Option Text
given (some (c ∷ cs)) = some (c ∷ cs)
given _ = none

parts : LogEntry → List Text
unfolding pad_left when_of label_of part given coerce minutes_text str_of_int decimal
parts entry =
    (b'#' ∷ pad_left 5 (str_of_int entry.record_number))
    ∷ when_of entry.operate_date
    ∷ (codes "batt=" ++ pad_left 3 (decimal entry.lock_battery) ++ codes "%")
    ∷ label_of (coerce entry.record_type)
    ∷ (part (codes "uid=") decimal [] entry.tail.uid
        ++ (part (codes "rid=") decimal [] entry.tail.record_id
            ++ (part (codes "pwd/id=") (λ t. t) [] entry.tail.password
                ++ (part (codes "new=") (λ t. t) [] (given entry.tail.new_password)
                    ++ (part (codes "key=") decimal [] entry.tail.key_id
                        ++ (part (codes "acc_batt=") decimal (codes "%")
                              entry.tail.accessory_battery
                            ++ part (codes "deleted_at=") minutes_text []
                                entry.tail.delete_date))))))

-- `separator.join(texts)`
unfoldable pub join : Text → List Text → Text
join separator [] = []
join separator (t ∷ []) = t
join separator (t ∷ u ∷ ts) = t ++ (separator ++ join separator (u ∷ ts))

-- `_format`
unfoldable pub format_entry : LogEntry → Text
unfolding parts join
format_entry entry = join (codes "  ") (parts entry)

lines_of : List LogEntry → List Text
unfolding format_entry
lines_of [] = []
lines_of (e ∷ es) = format_entry e ∷ lines_of es

or_text : Text → Text → Text
or_text [] t = t
or_text (c ∷ cs) t = c ∷ cs

newline_if : List LogEntry → Text
newline_if [] = []
newline_if (e ∷ es) = 10 ∷ []

-- `_render`, with the moment in ISO format.
unfoldable pub render : Text → VirtualKey → List LogEntry → ℕ → Text
unfolding or_text lines_of join newline_if decimal
render moment key entries from_sequence =
    codes "# operation log for "
    ++ (or_text key.lock_alias key.lock_name
        ++ (codes " ("
            ++ (key.lock_mac
                ++ (codes ")\n# fetched "
                    ++ (moment
                        ++ (codes "  records="
                            ++ (decimal (length entries)
                                ++ (codes "  from_sequence="
                                    ++ (decimal from_sequence
                                        ++ (10 ∷ join (10 ∷ []) (lines_of entries)
                                            ++ newline_if entries))))))))))

-- `_default_output_path`, without the directory; `stamp` is the local time.
unfoldable pub default_output_name : Text → VirtualKey → Text
unfolding lower without_colons
default_output_name stamp key =
    codes "operation_log_"
    ++ (lower (without_colons key.lock_mac) ++ (b'_' ∷ stamp ++ codes ".txt"))

-- `_run`
unfoldable pub run_dump : Surroundings → Client → Option ℕ → ℕ → Run → Result (List LogEntry) × Run
unfolding with_client
run_dump around c max_entries from_sequence =
    with_client around passes (get_operation_log c max_entries from_sequence)
