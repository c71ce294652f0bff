-- ===== src/Encoding.antt =====
-- ttlock_ble/commands/encoding.py and envelope.py, and the bytearray steps that builders share.
pub mod Decimal
use ttlock_ble.Base.{
  ℕ, zero, suc, ◌+◌, ◌-◌, ◌*◌, ◌/◌, ◌%◌, Bool, true, false, List, [], ◌∷◌, ◌++◌, Option, none, some,
  length, take, drop, ltb, ◌==◌, if◌then◌else◌, map,
}
use mathlib.Core.List.{reverse}
use ttlock_ble.Base.Bytes.{Bytes}
use ttlock_ble.Outcome.{Result, ok, raised, value_error, index_error, ◌>>=◌}
use ttlock_ble.Outcome.Access.{make_byte, to_bytes}
use ttlock_ble.Text.{Text, ℤ, pos, negsuc, int_of, hex_octet, decode_ascii}

-- An `int` as an element of `bytes(...)`.
unfoldable pub byte_of_int : ℤ → Result ℕ
unfolding make_byte
byte_of_int (pos n) = make_byte n
byte_of_int (negsuc n) = raised value_error

-- The comprehension of `decimal_time_bytes`, two characters at a time.
unfoldable pub pair_bytes : Text → Result Bytes
unfolding byte_of_int
pair_bytes [] = ok []
pair_bytes (a ∷ []) = do v ← int_of (a ∷ []); b ← byte_of_int v; ok (b ∷ [])
pair_bytes (a ∷ b ∷ rest) = do
  v ← int_of (a ∷ b ∷ [])
  byte ← byte_of_int v
  bytes ← pair_bytes rest
  ok (byte ∷ bytes)

unfoldable pub decimal_time_bytes : Text → Result Bytes
unfolding pair_bytes
decimal_time_bytes time_str =
    pair_bytes (if length time_str % 2 == 0 then time_str else b'0' ∷ time_str)

-- `int_to_bytes_be`
unfoldable pub int_to_bytes_be : ℕ → ℕ → Result Bytes
unfolding to_bytes
int_to_bytes_be value size = to_bytes value size

join_octets : List ℕ → Text
join_octets [] = []
join_octets (x ∷ []) = hex_octet x
join_octets (x ∷ y ∷ rest) = hex_octet x ++ (b':' ∷ join_octets (y ∷ rest))

-- `decode_mac6`
unfoldable pub decode_mac6 : Bytes → Text
unfolding join_octets hex_octet
decode_mac6 raw = join_octets (reverse raw)

-- `raw.split(b"\x00", 1)[0]`
unfoldable pub until_zero : Bytes → Bytes
until_zero [] = []
until_zero (b ∷ bs) = if b == 0 then [] else b ∷ until_zero bs

unfoldable pub decode_null_terminated_ascii : Bytes → Result Text
unfolding until_zero decode_ascii
decode_null_terminated_ascii raw = decode_ascii (until_zero raw)

-- `out[i:j] = raw` on a bytearray.
unfoldable pub assign : ℕ → ℕ → Bytes → Bytes → Bytes
assign i j raw out = take i out ++ (raw ++ drop j out)

-- `out[i] = b` on a bytearray, for a byte.
unfoldable pub set_at : ℕ → ℕ → Bytes → Result Bytes
set_at i b [] = raised index_error
set_at zero b (x ∷ xs) = ok (b ∷ xs)
set_at (suc i) b (x ∷ xs) = elim (set_at i b xs) [ ok ys ↦ ok (x ∷ ys) | raised e ↦ raised e ]

abbrev pub response_success : ℕ
response_success = 1

abbrev pub response_failed : ℕ
response_failed = 0

-- `parse_response_status`: the echoed opcode, the status and the data.
unfoldable pub parse_response_status : Bytes → Result (ℕ × ℕ × Bytes)
parse_response_status (echo ∷ status ∷ content) = ok (echo, status, content)
parse_response_status _ = raised value_error
