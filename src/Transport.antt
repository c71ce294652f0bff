-- ===== src/Transport.antt =====
-- ttlock_ble/ble/transport.py: framing and the exchange of one command, over a link whose
-- notifications, write results and waking moments are given.
pub mod Link
pub mod Finder
pub mod Exchange
pub mod Routing
pub mod Answering
pub mod Writing
use ttlock_ble.Base.{
  ℕ, zero, suc, ◌+◌, ◌-◌, Bool, true, false, List, [], ◌∷◌, ◌++◌, Option, none, some, length, take,
  drop, ltb, if◌then◌else◌,
}
use ttlock_ble.Base.Bytes.{Bytes}
use ttlock_ble.Frame.{Frame, build}
use ttlock_ble.Outcome.{Result, ok, raised, Exn, assertion_error, tt_lock_error}
use ttlock_ble.Reassembler.{FrameReassembler, feed}

-- `linked` says that `connect` has set the client and its characteristics. `written` lists the
-- chunks handed to `write_gatt_char`, `sent` the frames logged as TX, and `pushed` the calls of
-- `on_push_frame`, oldest first.
pub record BleTransport : Type 0 where
  pub linked : Bool
  pub reassembler : FrameReassembler
  pub inbox : List Frame
  pub waiting_for_response : ℕ
  pub written : List Bytes
  pub sent : List Frame
  pub pushed : List Frame

-- What a failed `write_gatt_char` raises: `BleakError`, `TimeoutError`, `OSError`. The calls of bleak
-- are taken to raise no other exception.
pub data WriteError : Type 0 where
  bleak_write_error write_timeout os_write_error : WriteError

-- One awaited `write_gatt_char`: the notifications that come before it ends, and its error.
pub record WriteTurn : Type 0 where
  pub heard : List Bytes
  pub failure : Option WriteError

-- What the event loop does while a reply is awaited, before the deadline.
pub data Moment : Type 0 where
  notified : Bytes → Moment
  resumed : Moment

-- The environment of one exchange. After the last moment the deadline has passed.
pub record Turn : Type 0 where
  pub writes : List WriteTurn
  pub moments : List Moment

abbrev pub silent : Turn
silent = record { writes = []; moments = [] }

-- `_on_notify`
unfoldable pub on_notify : BleTransport → Bytes → BleTransport
on_notify t chunk =
    let (frames, r) = feed t.reassembler chunk in
    if ltb 0 t.waiting_for_response
    then record t { reassembler = r; inbox = t.inbox ++ frames }
    else record t { reassembler = r; pushed = t.pushed ++ frames }

unfoldable pub on_notify_all : BleTransport → List Bytes → BleTransport
on_notify_all t [] = t
on_notify_all t (chunk ∷ chunks) = on_notify_all (on_notify t chunk) chunks

abbrev pub ble_write_chunk : ℕ
ble_write_chunk = 20

-- The slices of `range(0, len(wire), BLE_WRITE_CHUNK)`; a round for each byte is enough.
unfoldable pub chunks_of : ℕ → Bytes → List Bytes
chunks_of zero wire = []
chunks_of (suc fuel) [] = []
chunks_of (suc fuel) (b ∷ bs) =
    take ble_write_chunk (b ∷ bs) ∷ chunks_of fuel (drop ble_write_chunk (b ∷ bs))

-- `except (BleakError, TimeoutError, OSError)`
send_error : WriteError → Exn
send_error bleak_write_error = tt_lock_error
send_error write_timeout = tt_lock_error
send_error os_write_error = tt_lock_error

-- One write: what is heard before it ends, then its end.
write_one : BleTransport → WriteTurn → Bytes → Result (Unit {0}) × BleTransport
unfolding send_error
write_one t w chunk =
    let t' = on_notify_all t w.heard in
    elim w.failure [
      | some e ↦ (raised (send_error e), t')
      | none ↦ (ok tt, record t' { written = t'.written ++ chunk ∷ [] })
    ]

-- Writes beyond the given ones succeed in silence.
unfoldable pub write_all :
    BleTransport → List WriteTurn → List Bytes → Result (Unit {0}) × BleTransport
unfolding write_one
write_all t ws [] = (ok tt, t)
write_all t [] (chunk ∷ chunks) =
    write_all (record t { written = t.written ++ chunk ∷ [] }) [] chunks
write_all t (w ∷ ws) (chunk ∷ chunks) = elim ((write_one t w chunk).0) [
  | ok _ ↦ write_all (write_one t w chunk).1 ws chunks
  | raised e ↦ (raised e, (write_one t w chunk).1)
]

send_wire : BleTransport → List WriteTurn → Frame → Result Bytes → Result (Unit {0}) × BleTransport
send_wire t ws frame (raised e) = (raised e, t)
send_wire t ws frame (ok wire) =
    write_all (record t { sent = t.sent ++ frame ∷ [] }) ws (chunks_of (length wire) wire)

unfoldable pub send : BleTransport → List WriteTurn → Frame → Result (Unit {0}) × BleTransport
unfolding send_wire write_all
send t ws frame =
    if t.linked then send_wire t ws frame (build frame) else (raised assertion_error, t)

pub data Look : Type 0 where
  waits : BleTransport → Look
  answered : Frame → BleTransport → Look

go_on : (BleTransport → Result Frame × BleTransport) → Look → Result Frame × BleTransport
go_on more (waits t) = more t
go_on more (answered reply t) = (ok reply, t)

module _ (is_response : Frame → ℕ → Bool) where
  -- What a look at the inbox finds: nothing yet, a frame that is no reply and is pushed, or the
  -- reply.
  unfoldable pub look_at : ℕ → List Frame → BleTransport → Look
  look_at command [] t = waits t
  look_at command (candidate ∷ rest) t =
      if is_response candidate command
      then answered candidate (record t { inbox = rest })
      else waits (record t { inbox = rest; pushed = t.pushed ++ candidate ∷ [] })

  -- The loop of `exchange` for one command byte: it takes the next frame of the inbox when there is
  -- one.
  unfoldable pub await_reply : ℕ → List Moment → BleTransport → Result Frame × BleTransport
  unfolding look_at go_on
  await_reply command [] t = (raised tt_lock_error, t)
  await_reply command (notified chunk ∷ ms) t = await_reply command ms (on_notify t chunk)
  await_reply command (resumed ∷ ms) t =
      go_on (λ t'. await_reply command ms t') (look_at command t.inbox t)

  unfoldable pub after_send :
      ℕ → List Moment → Result (Unit {0}) × BleTransport → Result Frame × BleTransport
  after_send command ms (ok _, t) = await_reply command ms t
  after_send command ms (raised e, t) = (raised e, t)

  -- `finally: self._waiting_for_response -= 1`
  abbrev stop_waiting : Result Frame × BleTransport → Result Frame × BleTransport
  stop_waiting (r, t) = (r, record t { waiting_for_response = t.waiting_for_response - 1 })

  unfoldable pub exchange : BleTransport → Turn → Frame → Result Frame × BleTransport
  unfolding after_send await_reply
  exchange t turn frame = stop_waiting (
      after_send frame.command turn.moments
        (send (record t { waiting_for_response = t.waiting_for_response + 1 }) turn.writes frame))
