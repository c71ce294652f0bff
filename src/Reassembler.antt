-- ===== src/Reassembler.antt =====
-- ttlock_ble/protocol/reassembler.py: notification bytes in, whole frames out.
pub mod Step
pub mod Stream
pub mod Delivery
pub mod Bound
use ttlock_ble.Base.{
  ℕ, zero, suc, ◌+◌, ◌-◌, Bool, true, false, not, ◌&&◌, List, [], ◌∷◌, ◌++◌, Option, none, some,
  length, get_elem?, take, drop, slice, ltb, leb, ◌==◌, if◌then◌else◌,
}
use ttlock_ble.Base.Bytes.{Bytes, equal}
use ttlock_ble.Frame.{Frame, parse, header, trailer, v3_header_len, v3_length_index, crc_len}
use ttlock_ble.Outcome.{Result, ok, raised}

abbrev pub min_protocol_type : ℕ
min_protocol_type = 5

-- `_declared_frame_len`
declared_frame_len : Bytes → Option ℕ
declared_frame_len buf = elim (get_elem? buf v3_length_index) [
  | none ↦ none
  | some declared ↦ some (v3_header_len + declared + crc_len + length trailer)
]

pub record FrameReassembler : Type 0 where
  pub buf : Bytes

abbrev pub new_reassembler : FrameReassembler
new_reassembler = record { buf = [] }

succ_of : Option ℕ → Option ℕ
succ_of none = none
succ_of (some i) = some (suc i)

-- `self._buf.find(HEADER)`, with `none` for -1.
unfoldable pub find_header : Bytes → Option ℕ
unfolding succ_of
find_header [] = none
find_header (x ∷ []) = none
find_header (x ∷ y ∷ rest) =
    let later = succ_of (find_header (y ∷ rest)) in if x == 0x7f && y == 0x5a then some 0 else later

-- How one round of the loop ends: `break`, `continue`, or a frame appended to `out`, each with the
-- buffer that it leaves.
pub data Round : Type 0 where
  stop : Bytes → Round
  skip : Bytes → Round
  emit : Frame → Bytes → Round

-- `len(self._buf) >= 3 and self._buf[2] < MIN_PROTOCOL_TYPE`
is_missync : Bytes → Bool
is_missync buf = elim (get_elem? buf 2) [ none ↦ false | some proto ↦ ltb proto min_protocol_type ]

-- The round once `size` bytes are there. `parse` raises nothing but `ValueError`.
take_frame : ℕ → Bytes → Round
take_frame size buf =
    if not (equal (slice (size - length trailer) size buf) trailer)
    then skip (drop (length header) buf)
    else elim (parse (take (size - length trailer) buf)) [
      | ok frame ↦ emit frame (drop size buf)
      | raised _ ↦ skip (drop size buf)
    ]

try_frame : Option ℕ → Bytes → Round
unfolding take_frame
try_frame none buf = stop buf
try_frame (some size) buf = if ltb (length buf) size then stop buf else take_frame size buf

-- The round behind `del self._buf[:start]`.
pub at_header : Bytes → Round
unfolding is_missync try_frame declared_frame_len
at_header buf =
    if is_missync buf
    then skip (drop (length header) buf)
    else try_frame (declared_frame_len buf) buf

from_found : Option ℕ → Bytes → Round
unfolding at_header
from_found none buf = stop (drop (length buf - 1) buf)
from_found (some start) buf = at_header (drop start buf)

pub round : Bytes → Round
unfolding find_header from_found
round buf = from_found (find_header buf) buf

-- `while True`, with fuel. Every round that goes on leaves a shorter buffer.
pub drain : ℕ → Bytes → List Frame × Bytes
unfolding round
drain zero buf = ([], buf)
drain (suc fuel) buf = elim (round buf) [
  | stop rest ↦ ([], rest)
  | skip rest ↦ drain fuel rest
  | emit frame rest ↦ let (frames, last) = drain fuel rest in (frame ∷ frames, last)
]

abbrev pub drain_all : Bytes → List Frame × Bytes
drain_all buf = drain (suc (length buf)) buf

unfoldable pub feed : FrameReassembler → Bytes → List Frame × FrameReassembler
unfolding drain
feed r chunk = let (frames, rest) = drain_all (r.buf ++ chunk) in (frames, record { buf = rest })

-- The notifications of a connection, one after the other.
unfoldable pub feed_all : FrameReassembler → List Bytes → List Frame × FrameReassembler
unfolding feed
feed_all r [] = ([], r)
feed_all r (chunk ∷ chunks) =
    let (frames, r') = feed r chunk in
    let (more, last) = feed_all r' chunks in (frames ++ more, last)
