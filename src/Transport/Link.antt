-- ===== src/Transport/Link.antt =====
-- The connection of ttlock_ble/ble/transport.py: `connect`, `disconnect`, `_discover_chars`,
-- `read_optional_char`. What bleak answers is given as a turn, and its calls are recorded.
pub mod Released
pub mod Connected
use ttlock_ble.Base.{
  ℕ, Bool, true, false, not, ◌&&◌, List, [], ◌∷◌, ◌++◌, Option, none, some, ◌==◌, if◌then◌else◌,
}
use mathlib.Core.List.{reverse}
use ttlock_ble.Base.Bytes.{Bytes, equal}
use ttlock_ble.Outcome.{Result, ok, raised, tt_lock_error, bleak_error, assertion_error}
use ttlock_ble.Text.{Text, codes}

-- A call that bleak carried out for one of its clients, or a release that raised: the client that it
-- left behind may still be connected.
pub data Call : Type 0 where
  established : ℕ → Call
  notify_started notify_stopped : ℕ → ℕ → Call
  released release_raised : ℕ → Call

-- `client` numbers the `BleakClient` in `_client`, `up` is its `is_connected`, and `device` the
-- `BLEDevice`. The characteristics are handles.
pub record Link : Type 0 where
  pub device : Option ℕ
  pub client : Option ℕ
  pub up : Bool
  pub write_char : Option ℕ
  pub notify_char : Option ℕ
  pub calls : List Call

-- The GATT services of a client, each with its characteristics by UUID.
abbrev pub Services : Type 0
Services = List (Text × List (Text × ℕ))

unfoldable pub lookup {ℓ} : {A : Type ℓ} → Text → List (Text × A) → Option A
unfolding equal
lookup uuid [] = none
lookup uuid ((name, a) ∷ rest) =
    let later = lookup uuid rest in if equal uuid name then some a else later

-- What happens while `disconnect` runs: which of its two calls of bleak raise.
pub record DisconnectTurn : Type 0 where
  pub stop_fails : Bool
  pub release_fails : Bool

-- What happens while `connect` runs: the release of an old client, what `find_lock_device` gives,
-- the client that is established, its services, whether `start_notify` raises, and whether the link
-- still stands at the end. The wake-up read swallows what it raises.
pub record ConnectTurn : Type 0 where
  pub disconnecting : DisconnectTurn
  pub searched : Result (Option ℕ)
  pub established_client : Option ℕ
  pub services : Services
  pub notify_fails : Bool
  pub stays_up : Bool

abbrev pub ttl_service : Text
ttl_service = codes "00001910-0000-1000-8000-00805f9b34fb"

abbrev pub ttl_write : Text
ttl_write = codes "0000fff2-0000-1000-8000-00805f9b34fb"

abbrev pub ttl_notify : Text
ttl_notify = codes "0000fff4-0000-1000-8000-00805f9b34fb"

abbrev bong_service : Text
bong_service = codes "6e400001-b5a3-f393-e0a9-e50e24dcca1e"

abbrev bong_write : Text
bong_write = codes "6e400002-b5a3-f393-e0a9-e50e24dcca1e"

abbrev bong_notify : Text
bong_notify = codes "6e400003-b5a3-f393-e0a9-e50e24dcca1e"

abbrev pub new_link : Option ℕ → Link
new_link device = record {
  device = device;
  client = none;
  up = false;
  write_char = none;
  notify_char = none;
  calls = [];
}

-- `is_connected`
unfoldable pub is_connected : Link → Bool
is_connected l = elim l.client [ none ↦ false | some c ↦ l.up ]

log_call : Call → Link → Link
log_call call l = record l { calls = l.calls ++ call ∷ [] }

stop_at : Option ℕ → ℕ → DisconnectTurn → Link → Link
unfolding log_call
stop_at none c turn l = l
stop_at (some char) c turn l =
    if l.up && not turn.stop_fails then log_call (notify_stopped c char) l else l

-- The first part of `disconnect`: a failure to stop the notifications is swallowed.
stop_notify : ℕ → DisconnectTurn → Link → Link
unfolding stop_at
stop_notify c turn l = stop_at l.notify_char c turn l

-- `self._client.disconnect()` and the `finally` clause, which drops the handle of the client even when
-- the call raises.
release : ℕ → DisconnectTurn → Link → Result (Unit {0}) × Link
unfolding log_call
release c turn l =
    if turn.release_fails
    then (raised bleak_error, record (log_call (release_raised c) l) { client = none })
    else (ok tt, record (log_call (released c) l) { client = none })

disconnect_from : Option ℕ → DisconnectTurn → Link → Result (Unit {0}) × Link
unfolding stop_notify release
disconnect_from none turn l = (ok tt, l)
disconnect_from (some c) turn l = release c turn (stop_notify c turn l)

unfoldable pub disconnect : DisconnectTurn → Link → Result (Unit {0}) × Link
unfolding disconnect_from
disconnect turn l = disconnect_from l.client turn l

-- The characteristics of a service that has both.
unfoldable pub both_chars : Text → Text → Option (List (Text × ℕ)) → Option (ℕ × ℕ)
unfolding lookup
both_chars w_uuid n_uuid none = none
both_chars w_uuid n_uuid (some chars) = elim (lookup w_uuid chars) [
  | none ↦ none
  | some w ↦ elim (lookup n_uuid chars) [ none ↦ none | some n ↦ some (w, n) ]
]

-- The loop of `_discover_chars` over the two services.
unfoldable pub discover : Services → Option (ℕ × ℕ)
unfolding both_chars
discover services = elim (both_chars ttl_write ttl_notify (lookup ttl_service services)) [
  | some chars ↦ some chars
  | none ↦ both_chars bong_write bong_notify (lookup bong_service services)
]

-- From `_discover_chars` on, which found these characteristics or none.
subscribe : Option (ℕ × ℕ) → ℕ → ConnectTurn → Link → Result (Unit {0}) × Link
unfolding log_call
subscribe none c turn l = (raised tt_lock_error, l)
subscribe (some (w, n)) c turn l =
    let l' = record l { write_char = some w; notify_char = some n } in
    if turn.notify_fails
    then (raised bleak_error, l')
    else (ok tt, log_call (notify_started c n) l')

-- The device that is known, or what the search gives: a device, `None`, or its exception.
resolve : Option ℕ → ConnectTurn → Link → Result (Unit {0}) × Link
resolve (some d) turn l = (ok tt, l)
resolve none turn l = elim turn.searched [
  | raised e ↦ (raised e, l)
  | ok found ↦ (ok tt, record l { device = found })
]

establish_client : Option ℕ → ConnectTurn → Link → Result (Unit {0}) × Link
unfolding log_call subscribe discover
establish_client none turn l = (raised tt_lock_error, l)
establish_client (some c) turn l =
    subscribe (discover turn.services) c turn
      (record (log_call (established c) l) { client = some c; up = turn.stays_up })

establish : Option ℕ → ConnectTurn → Link → Result (Unit {0}) × Link
unfolding establish_client
establish none turn l = (raised tt_lock_error, l)
establish (some d) turn l = establish_client turn.established_client turn l

after_resolve : ConnectTurn → Result (Unit {0}) × Link → Result (Unit {0}) × Link
unfolding establish
after_resolve turn (raised e, l) = (raised e, l)
after_resolve turn (ok _, l) = establish l.device turn l

after_release : ConnectTurn → Result (Unit {0}) × Link → Result (Unit {0}) × Link
unfolding resolve after_resolve
after_release turn (raised e, l) = (raised e, l)
after_release turn (ok _, l) = after_resolve turn (resolve l.device turn l)

unfoldable pub connect : ConnectTurn → Link → Result (Unit {0}) × Link
unfolding is_connected disconnect after_release
connect turn l =
    if is_connected l then (ok tt, l) else after_release turn (disconnect turn.disconnecting l)

strip_zeros_left : Text → Text
strip_zeros_left [] = []
strip_zeros_left (c ∷ cs) = if c == 0 then strip_zeros_left cs else c ∷ cs

text_or_none : Text → Option Text
text_or_none [] = none
text_or_none (c ∷ cs) = some (c ∷ cs)

-- `data.decode("utf-8").strip("\x00")`, and an empty text is `None`.
unfoldable pub char_text : (Bytes → Result Text) → Option Bytes → Option Text
unfolding strip_zeros_left text_or_none
char_text utf8 none = none
char_text utf8 (some raw) = elim (utf8 raw) [
  | raised e ↦ none
  | ok t ↦ text_or_none (reverse (strip_zeros_left (reverse (strip_zeros_left t))))
]

-- `read_optional_char`: `read` is what the GATT read gives, `none` when it raises.
unfoldable pub read_optional_char :
    (Bytes → Result Text) → Option Bytes → Link → Result (Option Text)
unfolding char_text
read_optional_char utf8 read l = elim l.client [
  | none ↦ raised assertion_error
  | some c ↦ ok (char_text utf8 read)
]
