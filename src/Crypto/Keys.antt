-- ===== src/Crypto/Keys.antt =====
-- The key formats of ttlock_ble/crypto.py: `hex_key_to_bytes`, `decode_password`, and the CRC that
-- can be replaced.
pub mod Passwords
pub mod Octets
pub mod Formats
use ttlock_ble.Base.{
  ℕ, ◌+◌, ◌-◌, ◌*◌, ◌%◌, Bool, true, false, not, ◌&&◌, ◌||◌, List, [], ◌∷◌, Option, none, some,
  length, leb, ◌==◌, if◌then◌else◌,
}
use ttlock_ble.Base.Bytes.{Bytes}
use ttlock_ble.Crypto.{codec_decode, key_len, table_crc}
use ttlock_ble.Outcome.{Result, ok, raised, value_error, refuse_if, ◌>>=◌, ◌>>◌}
use ttlock_ble.Text.{Text, ℤ, pos, negsuc, strip, int_of, decode_ascii}
use ttlock_ble.Text.Parsing.{hex_value, hex_int_of, split, contains, b64decode}

-- `value & 0xFF`, for which Python takes a negative value in two's complement.
unfoldable pub low_byte : ℤ → ℕ
low_byte (pos n) = n % 256
low_byte (negsuc n) = 255 - n % 256

or_refuse : Option ℤ → Result ℤ
or_refuse none = raised value_error
or_refuse (some v) = ok v

-- `[int(x.strip(), 16) & 0xFF for x in ... if x.strip()]`
unfoldable pub hex_parts : List Text → Result Bytes
unfolding low_byte or_refuse
hex_parts [] = ok []
hex_parts (x ∷ xs) = elim (length (strip x) == 0) [
  | true ↦ hex_parts xs
  | false ↦ do v ← or_refuse (hex_int_of (strip x)); rest ← hex_parts xs; ok (low_byte v ∷ rest)
]

is_hex : ℕ → Bool
is_hex c = elim (hex_value c) [ none ↦ false | some d ↦ true ]

-- `all(c in "0123456789abcdefABCDEF" for c in s)`
all_hex : Text → Bool
unfolding is_hex
all_hex [] = true
all_hex (c ∷ cs) = is_hex c && all_hex cs

digit_or_zero : ℕ → ℕ
unfolding hex_value
digit_or_zero c = elim (hex_value c) [ none ↦ 0 | some d ↦ d ]

-- `bytes.fromhex(s)` on hexadecimal digits, of which there is an even number here.
unfoldable pub from_hex : Text → Bytes
unfolding digit_or_zero
from_hex (a ∷ b ∷ rest) = (digit_or_zero a * 16 + digit_or_zero b) ∷ from_hex rest
from_hex _ = []

unfoldable pub hex_key_to_bytes : Text → Result Bytes
unfolding hex_parts all_hex
hex_key_to_bytes hex_str = do
  let s = strip hex_str
  refuse_if (length s == 0) value_error
  let sep = if contains b',' s then b',' else b'.'
  let separated = do
    parts ← hex_parts (split sep s)
    refuse_if (not (length parts == key_len)) value_error
    ok parts
  let continuous =
      if length s == key_len * 2 && all_hex s then ok (from_hex s) else raised value_error
  if contains b',' s || contains b'.' s then separated else continuous

-- `bytes(int(x) & 0xFF for x in csv.split(",") if x)`
unfoldable pub csv_bytes : List Text → Result Bytes
unfolding low_byte
csv_bytes [] = ok []
csv_bytes ([] ∷ xs) = csv_bytes xs
csv_bytes ((c ∷ cs) ∷ xs) = do v ← int_of (c ∷ cs); rest ← csv_bytes xs; ok (low_byte v ∷ rest)

-- A latin1 character is its byte.
unfoldable pub decode_password : Text → Result Text
unfolding csv_bytes
decode_password field = do
  let encoded = do
    blob ← b64decode field
    csv ← decode_ascii blob
    raw ← csv_bytes (split b',' csv)
    ok (codec_decode raw)
  if leb (length field) 10 then ok field else encoded

-- The module's `_crc_func`: `set_crc_func` replaces it, `crc_compute` calls it.
pub record CrcModule : Type 0 where
  pub crc_func : Bytes → ℕ

abbrev pub initial_crc : CrcModule
initial_crc = record { crc_func = table_crc }

unfoldable pub set_crc_func : (Bytes → ℕ) → CrcModule → CrcModule
set_crc_func fn m = record { crc_func = fn }

unfoldable pub crc_compute : CrcModule → Bytes → ℕ
crc_compute m raw = m.crc_func raw
