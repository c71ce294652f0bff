-- ===== src/Crypto/Keys/Octets.antt =====
-- The octets of a key: as one string of digits, and as pieces of their own.
use ttlock_ble.Base.{
  ℕ, ◌*◌, ◌/◌, ◌%◌, ◌<◌, ◌≡◌, refl, ap, ◌∙◌, arith, Bool, true, false, ◌||◌, List, [], ◌∷◌, ◌++◌,
  map, some, All, All-append, length, ◌==◌,
}
use ttlock_ble.Base.Bytes.{Bytes, IsByte}
use ttlock_ble.Crypto.Keys.{
  low_byte, or_refuse, hex_parts, is_hex, all_hex, digit_or_zero, from_hex, hex_key_to_bytes,
}
use ttlock_ble.Outcome.{ok}
use ttlock_ble.Text.{Text, ℤ, pos, is_space, hex_digit, hex_octet, strip}
use ttlock_ble.Text.Parsing.{hex_int_of, contains}
use ttlock_ble.Text.Parsing.Octets.{
  hex_value-digit, digit_unlike, hex_octet-IsSolid, hex_int_of-hex_octet,
}
use ttlock_ble.Text.Strip.{IsSolid, strip-IsSolid}

-- The octets of a key one after the other.
pub hexes : Bytes → Text
hexes [] = []
hexes (b ∷ bs) = hex_octet b ++ hexes bs

hexes-IsSolid : (bs : Bytes) → All IsByte bs → IsSolid (hexes bs)
unfolding hexes IsSolid
hexes-IsSolid [] h = tt
hexes-IsSolid (b ∷ bs) (p, h) =
    All-append (λ c. is_space c ≡ false) (hex_octet b) (hexes bs) (hex_octet-IsSolid b p)
      (hexes-IsSolid bs h)

digit_or_zero-digit : (d : ℕ) → d < 16 → digit_or_zero (hex_digit d) ≡ d
unfolding digit_or_zero
digit_or_zero-digit d h = rw (digit_or_zero, hex_value-digit d h) refl

is_hex-digit : (d : ℕ) → d < 16 → is_hex (hex_digit d) ≡ true
unfolding is_hex
is_hex-digit d h = rw (is_hex, hex_value-digit d h) refl

from_hex-hexes : (bs : Bytes) → All IsByte bs → from_hex (hexes bs) ≡ bs
unfolding from_hex hexes hex_octet
from_hex-hexes [] h = refl
from_hex-hexes (b ∷ bs) (p, h) =
    rw (digit_or_zero-digit (b / 16) (omega arith), digit_or_zero-digit (b % 16) (omega arith))
      (ap (λ (x : ℕ). x ∷ from_hex (hexes bs)) (omega arith)
        ∙ ap (λ xs. b ∷ xs) (from_hex-hexes bs h))

all_hex-hexes : (bs : Bytes) → All IsByte bs → all_hex (hexes bs) ≡ true
unfolding all_hex hexes hex_octet
all_hex-hexes [] h = refl
all_hex-hexes (b ∷ bs) (p, h) =
    rw
      (is_hex-digit (b / 16) (omega arith), is_hex-digit (b % 16) (omega arith), all_hex-hexes bs h)
      refl

length-hexes : (bs : Bytes) → length (hexes bs) ≡ length bs * 2
unfolding hexes hex_octet
length-hexes [] = refl
length-hexes (b ∷ bs) = omega (arith, length-hexes bs)

pub no_comma : (b : ℕ) → IsByte b → contains b',' (hex_octet b) ≡ false
unfolding contains hex_octet
no_comma b p =
    rw ((digit_unlike (b / 16) (omega arith)).0, (digit_unlike (b % 16) (omega arith)).0) refl

pub no_dot : (b : ℕ) → IsByte b → contains b'.' (hex_octet b) ≡ false
unfolding contains hex_octet
no_dot b p =
    rw ((digit_unlike (b / 16) (omega arith)).1, (digit_unlike (b % 16) (omega arith)).1) refl

pub contains-append :
    (sep : ℕ) (s t : Text) → contains sep s ≡ false → contains sep (s ++ t) ≡ contains sep t
unfolding contains
contains-append sep [] t h = refl
contains-append sep (c ∷ s) t h = dropped (c == sep) (contains sep s) h (contains-append sep s t)
  where
    dropped :
        (a b : Bool)
        → (a || b) ≡ false
        → (b ≡ false → contains sep (s ++ t) ≡ contains sep t)
        → (a || contains sep (s ++ t)) ≡ contains sep t
    dropped false false h k = k refl
    dropped false true h k = cc h
    dropped true b h k = cc h

hexes-contains :
    (sep : ℕ) (bs : Bytes)
    → ((b : ℕ) → IsByte b → contains sep (hex_octet b) ≡ false)
    → All IsByte bs
    → contains sep (hexes bs) ≡ false
unfolding hexes contains
hexes-contains sep [] k h = refl
hexes-contains sep (b ∷ bs) k (p, h) =
    contains-append sep (hex_octet b) (hexes bs) (k b p) ∙ hexes-contains sep bs k h

hex_parts-step :
    (x : Text) (xs : List Text) (v : ℤ) (rest : Bytes)
    → (length (strip x) == 0) ≡ false
    → hex_int_of (strip x) ≡ some v
    → hex_parts xs ≡ ok rest
    → hex_parts (x ∷ xs) ≡ ok (low_byte v ∷ rest)
unfolding hex_parts or_refuse
hex_parts-step x xs v rest e f g = rw (hex_parts, e, f, g) refl

two_digits : (b : ℕ) → (length (hex_octet b) == 0) ≡ false
unfolding hex_octet
two_digits b = refl

pub hex_parts-octets : (bs : Bytes) → All IsByte bs → hex_parts (map hex_octet bs) ≡ ok bs
unfolding hex_parts low_byte
hex_parts-octets [] h = refl
hex_parts-octets (b ∷ bs) (p, h) =
    let same = strip-IsSolid (hex_octet b) (hex_octet-IsSolid b p) in
    hex_parts-step (hex_octet b) (map hex_octet bs) (pos b) bs
      (ap (λ (t : Text). length t == 0) same ∙ two_digits b)
      (ap hex_int_of same ∙ hex_int_of-hex_octet b p) (hex_parts-octets bs h)
    ∙ ap (λ (x : ℕ). ok (x ∷ bs)) (omega arith)

pub continuous :
    (key : Bytes) → length key ≡ 16 → All IsByte key → hex_key_to_bytes (hexes key) ≡ ok key
unfolding hex_key_to_bytes
continuous key n h =
    rw
      (
        strip-IsSolid (hexes key) (hexes-IsSolid key h),
        hexes-contains b',' key no_comma h,
        hexes-contains b'.' key no_dot h,
        all_hex-hexes key h,
        from_hex-hexes key h,
        length-hexes key,
        n,
      )
      refl
