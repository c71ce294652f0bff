-- ===== src/Text/Parsing/Octets.antt =====
-- Lower-case hexadecimal octets, as `f"{octet:02x}"` prints them.
use ttlock_ble.Base.{ℕ, ◌/◌, ◌%◌, ◌<◌, ◌≡◌, ap, ◌∙◌, arith, Bool, false, ◌||◌, ◌&&◌, some, ◌==◌}
use ttlock_ble.Base.Bytes.{IsByte}
use ttlock_ble.Text.{pos, is_space, hex_digit, hex_octet}
use ttlock_ble.Text.Parsing.{hex_value, read_hex, read_prefixed, signed_hex, hex_int_of, map_option}
use ttlock_ble.Text.Strip.{IsSolid, strip-IsSolid}

pub digit-solid : (d : ℕ) → d < 16 → is_space (hex_digit d) ≡ false
unfolding hex_digit is_space
digit-solid d h = ground arith

pub hex_value-digit : (d : ℕ) → d < 16 → hex_value (hex_digit d) ≡ some d
unfolding hex_digit hex_value
hex_value-digit d h = ground arith

pub digit_unlike :
    (d : ℕ)
    → d < 16
    → ((hex_digit d == b',') ≡ false)
      × ((hex_digit d == b'.') ≡ false)
      × ((hex_digit d == b'-') ≡ false)
      × ((hex_digit d == b'+') ≡ false)
      × ((hex_digit d == b'x' || hex_digit d == b'X') ≡ false)
unfolding hex_digit
digit_unlike d h = ground arith

no_prefix : (a b : Bool) → b ≡ false → (a && b) ≡ false
no_prefix a b h = ground arith

pub hex_octet-IsSolid : (b : ℕ) → IsByte b → IsSolid (hex_octet b)
unfolding hex_octet IsSolid
hex_octet-IsSolid b h =
    (digit-solid (b / 16) (omega arith), (digit-solid (b % 16) (omega arith), tt))

-- `int(f"{octet:02x}", 16)` is the octet.
pub hex_int_of-hex_octet : (b : ℕ) → IsByte b → hex_int_of (hex_octet b) ≡ some (pos b)
unfolding hex_int_of hex_octet signed_hex read_prefixed read_hex map_option
hex_int_of-hex_octet b h =
    let (_, _, no_minus, no_plus, _) = digit_unlike (b / 16) (omega arith) in
    let (_, _, _, _, no_x) = digit_unlike (b % 16) (omega arith) in
    ap signed_hex (strip-IsSolid (hex_octet b) (hex_octet-IsSolid b h))
    ∙ rw
        (
          no_minus,
          no_plus,
          no_prefix (hex_digit (b / 16) == b'0') _ no_x,
          read_hex,
          hex_value-digit (b / 16) (omega arith),
          hex_value-digit (b % 16) (omega arith),
        )
        (ap (λ (n : ℕ). some (pos n)) (omega arith))
