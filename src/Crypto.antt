-- ===== src/Crypto.antt =====
-- ttlock_ble/crypto.py: the CRC-8, the `codec_decode` mask and AES-128-CBC with the key as IV.
-- AES, CBC and PKCS7 are the `cryptography` package's: a parameter, with its documented laws.
mod Table
pub mod Codec
pub mod Aes
pub mod Keys
pub mod Toy
pub use Table.{decode_table, decode_table_at-lt}
unfoldable pub use Table.{decode_table_at}
use ttlock_ble.Base.{
  ℕ, ◌+◌, ◌-◌, ◌%◌, ◌≡◌, ◌≢◌, Bool, List, [], ◌∷◌, Option, none, some, not, bit_xor, map, length,
  get_elem?, ltb, ◌==◌, if◌then◌else◌, All,
}
use ttlock_ble.Base.Bytes.{Bytes, IsByte}
use ttlock_ble.Outcome.{Result, ok, raised, Exn, value_error, refuse_if, ◌>>=◌, ◌>>◌}

-- The loop of `_table_crc`. `& 0xFF` is `% 256`.
unfoldable pub crc_after : ℕ → Bytes → ℕ
unfolding Table.decode_table_at
crc_after crc [] = crc % 256
crc_after crc (byte ∷ rest) = crc_after (Table.decode_table_at (bit_xor byte crc % 256)) rest

unfoldable pub table_crc : Bytes → ℕ
unfolding crc_after
table_crc raw = crc_after 0 raw

-- `encoded[-1]` and `encoded[:-1]`, for a list that is not empty.
unfoldable pub last_of : ℕ → Bytes → ℕ
last_of x [] = x
last_of x (y ∷ ys) = last_of y ys

unfoldable pub but_last : ℕ → Bytes → Bytes
but_last x [] = []
but_last x (y ∷ ys) = x ∷ but_last y ys

-- `bytes(b ^ xor_const for b in ...)`
unfoldable pub xor_all : ℕ → Bytes → Bytes
xor_all xor_const [] = []
xor_all xor_const (b ∷ bs) = bit_xor b xor_const ∷ xor_all xor_const bs

unfoldable pub codec_decode : Bytes → Bytes
unfolding last_of but_last xor_all
codec_decode [] = []
codec_decode (x ∷ []) = x ∷ []
codec_decode (x ∷ y ∷ ys) =
    let encoded = x ∷ y ∷ ys in
    let xor_const =
      bit_xor (Table.decode_table_at ((length encoded - 1) % 256)) (last_of x (y ∷ ys)) in
    xor_all xor_const (but_last x (y ∷ ys))

-- What crypto.py calls of the `cryptography` package.
pub record Cipher : Type 0 where
  pub pad : Bytes → Bytes
  pub unpad : Bytes → Result Bytes
  pub cbc_encrypt : Bytes → Bytes → Bytes → Result Bytes
  pub cbc_decrypt : Bytes → Bytes → Bytes → Result Bytes

abbrev pub key_len : ℕ
key_len = 16

unfoldable pub check_key : Bytes → Result (Unit {0})
check_key key = refuse_if (not (length key == key_len)) value_error

module _ (c : Cipher) where
  unfoldable pub aes_encrypt : Bytes → Bytes → Result Bytes
  unfolding check_key
  aes_encrypt plaintext key = do check_key key; c.cbc_encrypt key key (c.pad plaintext)

  unfoldable pub aes_decrypt : Bytes → Bytes → Result Bytes
  unfolding check_key
  aes_decrypt ciphertext key = do
    check_key key
    padded ← c.cbc_decrypt key key ciphertext
    c.unpad padded

-- The documented behaviour of AES-CBC and PKCS7 that the package relies on.
pub record CipherLaws (c : Cipher) : Type 0 where
  pub unpad-pad : (p : Bytes) → All IsByte p → c.unpad (c.pad p) ≡ ok p
  pub pad-IsByte : (p : Bytes) → All IsByte p → All IsByte (c.pad p)
  pub length-pad : (p : Bytes) → length (c.pad p) ≡ length p + (16 - length p % 16)
  pub encrypt_aligned :
      (key iv p : Bytes)
      → length key ≡ 16
      → length iv ≡ 16
      → All IsByte p
      → length p % 16 ≡ 0
      → (q : Bytes) × (c.cbc_encrypt key iv p ≡ ok q)
        × (length q ≡ length p)
        × All IsByte q
        × (c.cbc_decrypt key iv q ≡ ok p)
  pub encrypt_raises :
      (key iv p : Bytes) (e : Exn) → c.cbc_encrypt key iv p ≡ raised e → e ≡ value_error
  pub decrypt_raises :
      (key iv q : Bytes) (e : Exn) → c.cbc_decrypt key iv q ≡ raised e → e ≡ value_error
  pub unpad_raises : (p : Bytes) (e : Exn) → c.unpad p ≡ raised e → e ≡ value_error
