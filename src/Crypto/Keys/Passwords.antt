-- ===== src/Crypto/Keys/Passwords.antt =====
-- Passwords as the cloud writes them are decoded to what was encoded.
use ttlock_ble.Base.{
  ℕ, ◌%◌, ◌<◌, ◌≡◌, refl, ap, ◌∙◌, arith, Bool, false, ◌||◌, List, [], ◌∷◌, map, All, All-append,
  length, leb, lt→ltb, ◌==◌, bit_xor,
}
use ttlock_ble.Base.Bits.{bit_xor-lt}
use ttlock_ble.Base.Bytes.{Bytes, IsByte}
use ttlock_ble.Crypto.{codec_decode, xor_all, decode_table_at, decode_table_at-lt}
use ttlock_ble.Crypto.Codec.{codec_encode, codec_decode-encode}
use ttlock_ble.Crypto.Keys.{low_byte, csv_bytes, decode_password}
use ttlock_ble.Outcome.{ok, raised, value_error}
use ttlock_ble.Text.{Text, pos, decimal, int_of, decode_ascii}
use ttlock_ble.Text.Base64.{b64encode}
use ttlock_ble.Text.Numerals.{IsDecimal, decimal-IsDecimal, digit_range, int_of-decimal}
use ttlock_ble.Text.Parsing.{contains}
use ttlock_ble.Text.Parsing.Sextets.{b64decode-b64encode}
use ttlock_ble.Text.Parsing.Split.{join, split-join}

-- The bytes in decimal, with commas.
csv : Bytes → Text
unfolding join
csv raw = join b',' (map decimal raw)

-- A password field of the cloud, for a last byte of the server's choice.
unfoldable pub cloud_field : Bytes → ℕ → Text
unfolding csv
cloud_field plain last = b64encode (csv (codec_encode plain last))

IsAscii : Text → Type 0
IsAscii = All (λ c. c < 128)

decode_ascii-IsAscii : (t : Text) → IsAscii t → decode_ascii t ≡ ok t
unfolding IsAscii decode_ascii
decode_ascii-IsAscii [] h = refl
decode_ascii-IsAscii (c ∷ cs) (p, h) = rw (lt→ltb c 128 p, decode_ascii-IsAscii cs h) refl

IsAscii-IsByte : (t : Text) → IsAscii t → All IsByte t
unfolding IsAscii
IsAscii-IsByte [] h = tt
IsAscii-IsByte (c ∷ cs) (p, h) = (omega arith, IsAscii-IsByte cs h)

IsDecimal-IsAscii : (t : Text) → IsDecimal t → IsAscii t
unfolding IsDecimal IsAscii
IsDecimal-IsAscii [] h = tt
IsDecimal-IsAscii (c ∷ cs) (p, h) = ((digit_range c p).0, IsDecimal-IsAscii cs h)

neither : (a b : Bool) → a ≡ false → b ≡ false → (a || b) ≡ false
neither a b h k = ground arith

IsDecimal-contains : (t : Text) → IsDecimal t → contains b',' t ≡ false
unfolding IsDecimal contains
IsDecimal-contains [] h = refl
IsDecimal-contains (c ∷ cs) (p, h) =
    neither (c == b',') (contains b',' cs) (digit_range c p).1 (IsDecimal-contains cs h)

csv-IsAscii : (raw : Bytes) → IsAscii (csv raw)
unfolding csv join IsAscii
csv-IsAscii [] = tt
csv-IsAscii (b ∷ []) = IsDecimal-IsAscii (decimal b) (decimal-IsDecimal b)
csv-IsAscii (b ∷ c ∷ raw) =
    All-append (λ c. c < 128) (decimal b) (b',' ∷ csv (c ∷ raw))
      (IsDecimal-IsAscii (decimal b) (decimal-IsDecimal b)) (omega arith, csv-IsAscii (c ∷ raw))

none_contain : (raw : Bytes) → All (λ u. contains b',' u ≡ false) (map decimal raw)
none_contain [] = tt
none_contain (b ∷ raw) = (IsDecimal-contains (decimal b) (decimal-IsDecimal b), none_contain raw)

no_number : int_of [] ≡ raised value_error
unfolding int_of
no_number = refl

csv_bytes-step :
    (t : Text) (ts : List Text) (n : ℕ) (rest : Bytes)
    → int_of t ≡ ok (pos n)
    → csv_bytes ts ≡ ok rest
    → csv_bytes (t ∷ ts) ≡ ok (n % 256 ∷ rest)
unfolding csv_bytes low_byte
csv_bytes-step [] ts n rest h k = cc (h, no_number)
csv_bytes-step (c ∷ cs) ts n rest h k = rw (h, k) refl

csv_bytes-decimal : (raw : Bytes) → All IsByte raw → csv_bytes (map decimal raw) ≡ ok raw
unfolding csv_bytes
csv_bytes-decimal [] h = refl
csv_bytes-decimal (b ∷ raw) (p, h) =
    csv_bytes-step (decimal b) (map decimal raw) b raw (int_of-decimal b) (csv_bytes-decimal raw h)
    ∙ ap (λ (x : ℕ). ok (x ∷ raw)) (omega arith)

xor_all-IsByte : (k : ℕ) (bs : Bytes) → k < 256 → All IsByte bs → All IsByte (xor_all k bs)
unfolding xor_all
xor_all-IsByte k [] h p = tt
xor_all-IsByte k (b ∷ bs) h (q, p) = (bit_xor-lt 8 b k q h, xor_all-IsByte k bs h p)

codec_encode-IsByte :
    (plain : Bytes) (last : ℕ)
    → All IsByte plain
    → last < 256
    → All IsByte (codec_encode plain last)
codec_encode-IsByte plain last h l =
    let k = bit_xor (decode_table_at (length plain % 256)) last in
    All-append IsByte (xor_all k plain) (last ∷ [])
      (xor_all-IsByte k plain
        (bit_xor-lt 8 (decode_table_at (length plain % 256)) last
          (decode_table_at-lt (length plain % 256)) l)
        h)
      (l, tt)

long_field : (field : Text) → 10 < length field → leb (length field) 10 ≡ false
long_field field h = ground arith

-- A field with the decimal bytes of an encoded password is read as those bytes, decoded.
decode_password-csv :
    (b : ℕ) (bs : Bytes)
    → All IsByte (b ∷ bs)
    → 10 < length (b64encode (csv (b ∷ bs)))
    → decode_password (b64encode (csv (b ∷ bs))) ≡ ok (codec_decode (b ∷ bs))
unfolding decode_password csv
decode_password-csv b bs h long =
    rw
      (
        long_field (b64encode (csv (b ∷ bs))) long,
        b64decode-b64encode (csv (b ∷ bs)) (IsAscii-IsByte (csv (b ∷ bs)) (csv-IsAscii (b ∷ bs))),
        decode_ascii-IsAscii (csv (b ∷ bs)) (csv-IsAscii (b ∷ bs)),
        split-join b',' (decimal b) (map decimal bs) (none_contain (b ∷ bs)),
        csv_bytes-decimal (b ∷ bs) h,
      )
      refl

-- A password field of the cloud, of more than ten characters, is decoded to the password that was
-- encoded, whatever last byte the server chose.
pub decode_password-cloud_field :
    (x : ℕ) (xs : Bytes) (last : ℕ)
    → All IsByte (x ∷ xs)
    → last < 256
    → 10 < length (cloud_field (x ∷ xs) last)
    → decode_password (cloud_field (x ∷ xs) last) ≡ ok (x ∷ xs)
unfolding cloud_field xor_all
decode_password-cloud_field x xs last h l long =
    decode_password-csv _ _ (codec_encode-IsByte (x ∷ xs) last h l) long
    ∙ ap ok (codec_decode-encode x xs last)
