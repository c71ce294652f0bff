-- ===== src/Outcome/Access.antt =====
-- Indexing into `bytes`, and making `bytes` from integers, with the exceptions of Python.
use native.Mathlib.Nat.{pow-suc}
use ttlock_ble.Base.{
  ℕ, zero, suc, ◌+◌, ◌*◌, ◌/◌, ◌%◌, ◌^◌, ◌<◌, ◌≡◌, refl, ap, arith, [], ◌∷◌, ◌++◌, Option, none,
  some, length, length-append, get_elem?, get_elem?-total, ltb, if◌then◌else◌,
}
use ttlock_ble.Base.Bytes.{Bytes, from_bytes_after, from_bytes, low_bytes}
use ttlock_ble.Outcome.{Result, ok, raised, value_error, overflow_error, index_error}

abbrev read : Option ℕ → Result ℕ
read (some b) = ok b
read none = raised index_error

-- `raw[i]` for `0 <= i`.
unfoldable pub byte_at : Bytes → ℕ → Result ℕ
byte_at raw i = read (get_elem? raw i)

-- Reading within the bytes raises nothing.
pub byte_at-within : (raw : Bytes) (i : ℕ) → i < length raw → (b : ℕ) × (byte_at raw i ≡ ok b)
unfolding byte_at
byte_at-within raw i h = let (b, e) = get_elem?-total raw i h in (b, ap read e)

-- An integer as an element of `bytes([...])` or of `bytearray.append`.
unfoldable pub make_byte : ℕ → Result ℕ
make_byte n = if ltb n 256 then ok n else raised value_error

-- `value.to_bytes(n, "big")`.
unfoldable pub to_bytes : ℕ → ℕ → Result Bytes
unfolding low_bytes
to_bytes value n = if ltb value (256 ^ n) then ok (low_bytes n value) else raised overflow_error

from_bytes_after-append :
    (acc : ℕ) (a b : Bytes)
    → from_bytes_after acc (a ++ b) ≡ from_bytes_after (from_bytes_after acc a) b
unfolding from_bytes_after
from_bytes_after-append acc [] b = refl
from_bytes_after-append acc (x ∷ a) b = from_bytes_after-append (acc * 256 + x) a b

from_bytes-low_bytes : (n v : ℕ) → v < 256 ^ n → from_bytes_after 0 (low_bytes n v) ≡ v
unfolding from_bytes_after low_bytes
from_bytes-low_bytes zero v h = omega arith
from_bytes-low_bytes (suc n) v h = omega (
  arith,
  from_bytes_after-append 0 (low_bytes n (v / 256)) (v % 256 ∷ []),
  from_bytes-low_bytes n (v / 256) (omega (arith, pow-suc 256 n)),
)

length-low_bytes : (n v : ℕ) → length (low_bytes n v) ≡ n
unfolding low_bytes
length-low_bytes zero v = refl
length-low_bytes (suc n) v =
    omega (
      arith,
      length-append {0} (low_bytes n (v / 256)) (v % 256 ∷ []),
      length-low_bytes n (v / 256),
    )

-- Big-endian packing fails exactly above the width, and is undone by `int.from_bytes`.
from_bytes-to_bytes :
    (v n : ℕ) → v < 256 ^ n → (to_bytes v n ≡ ok (low_bytes n v)) × (from_bytes (low_bytes n v) ≡ v)
unfolding to_bytes from_bytes
from_bytes-to_bytes v n h = (ground arith, from_bytes-low_bytes n v h)
