-- ===== src/Crypto/Codec.antt =====
-- `codec_decode` undoes the encoder that its docstring describes, and the CRC is one byte.
use ttlock_ble.Base.{
  ℕ, suc, ◌-◌, ◌%◌, ◌<◌, ◌≡◌, refl, ap, ◌∙◌, [], ◌∷◌, ◌++◌, bit_xor, length, length-append, arith,
}
use ttlock_ble.Base.Bits.{bit_xor_cancel}
use ttlock_ble.Base.Bytes.{Bytes}
use ttlock_ble.Crypto.{
  crc_after, table_crc, last_of, but_last, codec_decode, xor_all, decode_table_at,
}

-- The native encoder: each byte under one mask, made from the length and a last byte of choice.
abbrev pub codec_encode : Bytes → ℕ → Bytes
codec_encode plain last =
    xor_all (bit_xor (decode_table_at (length plain % 256)) last) plain ++ last ∷ []

last_of-append : (x : ℕ) (xs : Bytes) (z : ℕ) → last_of x (xs ++ z ∷ []) ≡ z
unfolding last_of
last_of-append x [] z = refl
last_of-append x (y ∷ ys) z = last_of-append y ys z

but_last-append : (x : ℕ) (xs : Bytes) (z : ℕ) → but_last x (xs ++ z ∷ []) ≡ x ∷ xs
unfolding but_last
but_last-append x [] z = refl
but_last-append x (y ∷ ys) z = ap (◌∷◌ x) (but_last-append y ys z)

decode_shape :
    (x : ℕ) (xs : Bytes) (z : ℕ)
    → codec_decode (x ∷ (xs ++ z ∷ []))
      ≡ xor_all (bit_xor (decode_table_at (length (x ∷ xs) % 256)) z) (x ∷ xs)
unfolding codec_decode
decode_shape x [] z = refl
decode_shape x (y ∷ ys) z =
    let count : length (x ∷ y ∷ (ys ++ z ∷ [])) - 1 ≡ length (x ∷ y ∷ ys) =
      omega (arith, length-append {0} ys (z ∷ [])) in
    ap (λ (n : ℕ). masked n (last_of x (y ∷ (ys ++ z ∷ []))) (but_last x (y ∷ (ys ++ z ∷ []))))
      count
    ∙ ap (λ (l : ℕ). masked (length (x ∷ y ∷ ys)) l (but_last x (y ∷ (ys ++ z ∷ []))))
        (last_of-append x (y ∷ ys) z)
    ∙ ap (masked (length (x ∷ y ∷ ys)) z) (but_last-append x (y ∷ ys) z)
  where
    masked : ℕ → ℕ → Bytes → Bytes
    masked n l bs = xor_all (bit_xor (decode_table_at (n % 256)) l) bs

xor_all_twice : (k : ℕ) (xs : Bytes) → xor_all k (xor_all k xs) ≡ xs
unfolding xor_all
xor_all_twice k [] = refl
xor_all_twice k (x ∷ xs) = rw (bit_xor_cancel x k, xor_all_twice k xs)

length-xor_all : (k : ℕ) (xs : Bytes) → length (xor_all k xs) ≡ length xs
unfolding xor_all
length-xor_all k [] = refl
length-xor_all k (x ∷ xs) = ap suc (length-xor_all k xs)

-- Decoding gives back every payload that is not empty, whatever last byte the encoder chose.
pub codec_decode-encode :
    (x : ℕ) (xs : Bytes) (last : ℕ) → codec_decode (codec_encode (x ∷ xs) last) ≡ x ∷ xs
unfolding xor_all
codec_decode-encode x xs last =
    let k = bit_xor (decode_table_at (length (x ∷ xs) % 256)) last in
    decode_shape (bit_xor x k) (xor_all k xs) last
    ∙ ap (λ (n : ℕ). xor_all (bit_xor (decode_table_at (suc n % 256)) last) (xor_all k (x ∷ xs)))
        (length-xor_all k xs)
    ∙ xor_all_twice k (x ∷ xs)

crc_after-lt : (crc : ℕ) (raw : Bytes) → crc_after crc raw < 256
unfolding crc_after
crc_after-lt crc [] = omega arith
crc_after-lt crc (byte ∷ rest) = crc_after-lt (decode_table_at (bit_xor byte crc % 256)) rest

pub table_crc-lt : (raw : Bytes) → table_crc raw < 256
unfolding table_crc
table_crc-lt raw = crc_after-lt 0 raw
