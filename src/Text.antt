-- ===== src/Text.antt =====
-- Python's `str` as the list of its code points, and the conversions that the package uses:
-- `int(text)`, `str(number)`, `str.isdigit`, hexadecimal octets, `bytes.decode`. Text is ASCII: a
-- digit of another script is taken for no digit.
pub mod Numerals
pub mod Parsing
pub mod Strip
pub mod Base64
use Prim.Native.Char.{code}
use Prim.Native.String.{String}
use ttlock_ble.Base.{
  ℕ, zero, suc, ◌+◌, ◌-◌, ◌*◌, ◌/◌, ◌%◌, ◌^◌, ◌≡◌, Bool, true, false, not, ◌&&◌, ◌||◌, List, [],
  ◌∷◌, ◌++◌, Option, none, some, ltb, leb, ◌==◌, if◌then◌else◌,
}
use mathlib.Core.List.{reverse}
use ttlock_ble.Base.Bytes.{Bytes}
use ttlock_ble.Outcome.{Result, ok, raised, value_error}

abbrev pub Text : Type 0
Text = List ℕ

-- A literal of the source.
abbrev pub codes : String → Text
codes String.[] = []
codes (String.◌∷◌ c s) = code c ∷ codes s

-- `negsuc n` is -(n + 1).
pub data ℤ : Type 0 where
  pos : ℕ → ℤ
  negsuc : ℕ → ℤ

pub negate : ℕ → ℤ
negate zero = pos 0
negate (suc n) = negsuc n

-- `value & 0xFFFFFFFF`, for which Python takes a negative value in two's complement.
unfoldable pub low_word : ℤ → ℕ
low_word (pos n) = n % 2 ^ 32
low_word (negsuc n) = 2 ^ 32 - 1 - n % 2 ^ 32

unfoldable pub add_ℕ : ℕ → ℤ → ℤ
add_ℕ a (pos n) = pos (a + n)
add_ℕ a (negsuc n) = if ltb n a then pos (a - n - 1) else negsuc (n - a)

pub is_digit : ℕ → Bool
is_digit c = leb b'0' c && leb c b'9'

unfoldable pub is_space : ℕ → Bool
is_space c = leb 9 c && leb c 13 || leb 28 c && leb c 32

all_digits : Text → Bool
unfolding is_digit
all_digits [] = true
all_digits (c ∷ cs) = is_digit c && all_digits cs

-- `text.isdigit()`
unfoldable pub is_decimal : Text → Bool
unfolding all_digits
is_decimal [] = false
is_decimal (c ∷ cs) = all_digits (c ∷ cs)

unfoldable pub strip_left : Text → Text
unfolding is_space
strip_left [] = []
strip_left (c ∷ cs) = if is_space c then strip_left cs else c ∷ cs

abbrev pub strip : Text → Text
strip t = reverse (strip_left (reverse (strip_left t)))

-- Digits with single underscores between them; the flag says that a digit came last.
read_digits : Bool → ℕ → Text → Option ℕ
unfolding is_digit
read_digits true acc [] = some acc
read_digits false acc [] = none
read_digits after acc (c ∷ cs) =
    let digit = read_digits true (acc * 10 + (c - b'0')) cs in
    let underscore = read_digits false acc cs in
    if is_digit c then digit else if after && c == b'_' then underscore else none

or_value_error : (ℕ → ℤ) → Option ℕ → Result ℤ
or_value_error sign none = raised value_error
or_value_error sign (some n) = ok (sign n)

signed : Text → Result ℤ
unfolding read_digits or_value_error negate
signed [] = raised value_error
signed (c ∷ cs) =
    if c == b'-'
    then or_value_error negate (read_digits false 0 cs)
    else or_value_error pos (read_digits false 0 (if c == b'+' then cs else c ∷ cs))

-- `int(text)`
unfoldable pub int_of : Text → Result ℤ
unfolding signed strip_left
int_of t = signed (strip t)

-- `str(n)`, the digits in front of `after`; `n` rounds are enough, as each divides by ten.
decimal_onto : ℕ → ℕ → Text → Text
decimal_onto zero n after = after
decimal_onto (suc fuel) n after =
    let digit = b'0' + n % 10 in
    elim (ltb n 10) [ true ↦ digit ∷ after | false ↦ decimal_onto fuel (n / 10) (digit ∷ after) ]

unfoldable pub decimal : ℕ → Text
unfolding decimal_onto
decimal n = decimal_onto (suc n) n []

unfoldable pub hex_digit : ℕ → ℕ
hex_digit d = if ltb d 10 then b'0' + d else b'a' + (d - 10)

-- `f"{octet:02x}"`
unfoldable pub hex_octet : ℕ → Text
unfolding hex_digit
hex_octet octet = hex_digit (octet / 16) ∷ hex_digit (octet % 16) ∷ []

-- `raw.decode("ascii")`, which raises `UnicodeDecodeError`.
unfoldable pub decode_ascii : Bytes → Result Text
decode_ascii [] = ok []
decode_ascii (b ∷ bs) =
    let rest = decode_ascii bs in
    if ltb b 128 then elim rest [ ok t ↦ ok (b ∷ t) | raised e ↦ raised e ] else raised value_error

-- `raw.decode("ascii", errors="replace")`
unfoldable pub decode_replacing : Bytes → Text
decode_replacing [] = []
decode_replacing (b ∷ bs) = (if ltb b 128 then b else 0xfffd) ∷ decode_replacing bs

-- `text.upper()` on ASCII.
unfoldable pub upper : Text → Text
upper [] = []
upper (c ∷ cs) = (if leb b'a' c && leb c b'z' then c - 32 else c) ∷ upper cs
