-- ===== src/Text/Parsing.antt =====
-- More of Python's text: `int(text, 16)`, `str.split`, `format(n, "X")`, `base64.b64decode`.
pub mod Hexadecimals
pub mod Sextets
pub mod Split
pub mod Octets
use ttlock_ble.Base.{
  ℕ, zero, suc, ◌+◌, ◌-◌, ◌*◌, ◌/◌, ◌%◌, Bool, true, false, ◌&&◌, ◌||◌, List, [], ◌∷◌, ◌++◌, Option,
  none, some, ltb, leb, ◌==◌, if◌then◌else◌,
}
use ttlock_ble.Base.Bytes.{Bytes}
use ttlock_ble.Outcome.{Result, ok, raised, value_error}
use ttlock_ble.Text.{Text, ℤ, pos, negate, strip}

map_option : (ℕ → ℤ) → Option ℕ → Option ℤ
map_option f none = none
map_option f (some n) = some (f n)

-- `c` in front of the first piece.
grow : ℕ → List Text → List Text
grow c [] = (c ∷ []) ∷ []
grow c (piece ∷ pieces) = (c ∷ piece) ∷ pieces

emit_byte : ℕ → Result Bytes → Result Bytes
emit_byte b (ok bs) = ok (b ∷ bs)
emit_byte b (raised e) = raised e

-- The value of a hexadecimal digit.
unfoldable pub hex_value : ℕ → Option ℕ
hex_value c =
    if leb b'0' c && leb c b'9'
    then some (c - b'0')
    else if leb b'a' c && leb c b'f'
    then some (c - b'a' + 10)
    else if leb b'A' c && leb c b'F'
    then some (c - b'A' + 10)
    else none

-- Hexadecimal digits with single underscores between them; the flag says that a digit came last.
unfoldable pub read_hex : Bool → ℕ → Text → Option ℕ
unfolding hex_value
read_hex true acc [] = some acc
read_hex false acc [] = none
read_hex after acc (c ∷ cs) = elim (hex_value c) [
  | some d ↦ read_hex true (acc * 16 + d) cs
  | none ↦ elim (after && c == b'_') [ true ↦ read_hex false acc cs | false ↦ none ]
]

skip_underscore : Text → Text
skip_underscore [] = []
skip_underscore (c ∷ cs) = if c == b'_' then cs else c ∷ cs

-- The digits behind an optional `0x`, which one underscore may follow.
read_prefixed : Text → Option ℕ
unfolding read_hex skip_underscore
read_prefixed [] = none
read_prefixed (a ∷ []) = read_hex false 0 (a ∷ [])
read_prefixed (a ∷ b ∷ cs) =
    if a == b'0' && (b == b'x' || b == b'X')
    then read_hex false 0 (skip_underscore cs)
    else read_hex false 0 (a ∷ b ∷ cs)

signed_hex : Text → Option ℤ
unfolding read_prefixed map_option
signed_hex [] = none
signed_hex (c ∷ cs) =
    if c == b'-'
    then map_option negate (read_prefixed cs)
    else map_option pos (read_prefixed (if c == b'+' then cs else c ∷ cs))

-- `int(text, 16)`, with `none` for its `ValueError`.
unfoldable pub hex_int_of : Text → Option ℤ
unfolding signed_hex map_option
hex_int_of t = signed_hex (strip t)

-- `text.split(sep)` for one character: the pieces, of which there is always one.
unfoldable pub split : ℕ → Text → List Text
unfolding grow
split sep [] = [] ∷ []
split sep (c ∷ cs) = let pieces = split sep cs in if c == sep then [] ∷ pieces else grow c pieces

-- `sep in text`
unfoldable pub contains : ℕ → Text → Bool
contains sep [] = false
contains sep (c ∷ cs) = c == sep || contains sep cs

upper_hex_digit : ℕ → ℕ
upper_hex_digit d = if ltb d 10 then b'0' + d else b'A' + (d - 10)

-- `format(n, "X")`, the digits in front of `after`; `n` rounds are enough.
upper_hex_onto : ℕ → ℕ → Text → Text
unfolding upper_hex_digit
upper_hex_onto zero n after = after
upper_hex_onto (suc fuel) n after =
    let digit = upper_hex_digit (n % 16) in
    elim (ltb n 16) [ true ↦ digit ∷ after | false ↦ upper_hex_onto fuel (n / 16) (digit ∷ after) ]

unfoldable pub upper_hex : ℕ → Text
unfolding upper_hex_onto
upper_hex n = upper_hex_onto (suc n) n []

-- The value of a character of the base64 alphabet.
unfoldable pub sextet_of : ℕ → Option ℕ
sextet_of c =
    if leb b'A' c && leb c b'Z'
    then some (c - b'A')
    else if leb b'a' c && leb c b'z'
    then some (c - b'a' + 26)
    else if leb b'0' c && leb c b'9'
    then some (c - b'0' + 52)
    else if c == b'+'
    then some 62
    else if c == b'/'
    then some 63
    else none

-- `base64.b64decode(text)`, without validation: other characters are passed over. `quad` counts the
-- sextets of the current group, `left` keeps the bits that are no byte yet, and `pads` counts the
-- padding since the last sextet. An unfinished group is a `ValueError`.
unfoldable pub b64decode_from : ℕ → ℕ → ℕ → Text → Result Bytes
unfolding sextet_of emit_byte
b64decode_from quad left pads [] = if quad == 0 then ok [] else raised value_error
b64decode_from quad left pads (c ∷ cs) = elim (c == b'=') [
  | true ↦ elim (leb 2 quad && leb 4 (quad + pads + 1)) [
    | true ↦ ok []
    | false ↦ b64decode_from quad left (if leb 2 quad then pads + 1 else pads) cs
  ]
  | false ↦ elim (sextet_of c) [
    | none ↦ b64decode_from quad left pads cs
    | some v ↦ elim (quad == 0) [
      | true ↦ b64decode_from 1 v 0 cs
      | false ↦ elim (quad == 1) [
        | true ↦ emit_byte (left * 4 + v / 16) (b64decode_from 2 (v % 16) 0 cs)
        | false ↦ elim (quad == 2) [
          | true ↦ emit_byte (left * 16 + v / 4) (b64decode_from 3 (v % 4) 0 cs)
          | false ↦ emit_byte (left * 64 + v) (b64decode_from 0 0 0 cs)
        ]
      ]
    ]
  ]
]

unfoldable pub b64decode : Text → Result Bytes
unfolding b64decode_from
b64decode = b64decode_from 0 0 0
