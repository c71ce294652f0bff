-- ===== src/Text/Parsing/Sextets.antt =====
-- `base64`: `b64decode` reads what `b64encode` wrote.
use ttlock_ble.Base.{
  ℕ, ◌+◌, ◌*◌, ◌/◌, ◌%◌, ◌<◌, ◌≡◌, refl, ap, ◌∙◌, arith, false, [], ◌∷◌, some, All, ◌==◌,
}
use ttlock_ble.Base.Bytes.{Bytes, IsByte}
use ttlock_ble.Outcome.{ok}
use ttlock_ble.Text.{Text}
use ttlock_ble.Text.Base64.{sextet_char, b64encode}
use ttlock_ble.Text.Parsing.{sextet_of, emit_byte, b64decode_from, b64decode}

sextet_of-char : (v : ℕ) → v < 64 → sextet_of (sextet_char v) ≡ some v
unfolding sextet_of sextet_char
sextet_of-char v h = ground arith

not_padding : (v : ℕ) → v < 64 → (sextet_char v == b'=') ≡ false
unfolding sextet_char
not_padding v h = ground arith

module _ (v : ℕ) (h : v < 64) (left pads : ℕ) (cs : Text) where
  first_sextet : b64decode_from 0 left pads (sextet_char v ∷ cs) ≡ b64decode_from 1 v 0 cs
  unfolding b64decode_from
  first_sextet = rw (b64decode_from, not_padding v h, sextet_of-char v h) refl

  second_sextet :
      b64decode_from 1 left pads (sextet_char v ∷ cs)
      ≡ emit_byte (left * 4 + v / 16) (b64decode_from 2 (v % 16) 0 cs)
  unfolding b64decode_from
  second_sextet = rw (b64decode_from, not_padding v h, sextet_of-char v h) refl

  third_sextet :
      b64decode_from 2 left pads (sextet_char v ∷ cs)
      ≡ emit_byte (left * 16 + v / 4) (b64decode_from 3 (v % 4) 0 cs)
  unfolding b64decode_from
  third_sextet = rw (b64decode_from, not_padding v h, sextet_of-char v h) refl

  fourth_sextet :
      b64decode_from 3 left pads (sextet_char v ∷ cs)
      ≡ emit_byte (left * 64 + v) (b64decode_from 0 0 0 cs)
  unfolding b64decode_from
  fourth_sextet = rw (b64decode_from, not_padding v h, sextet_of-char v h) refl

-- The three sextets of a group that spell its first two bytes.
two_bytes :
    (a b s3 : ℕ) (cs : Text)
    → IsByte a
    → IsByte b
    → s3 < 64
    → s3 / 4 ≡ b % 16
    → b64decode_from 0 0 0
        (sextet_char (a / 4) ∷ sextet_char (a % 4 * 16 + b / 16) ∷ sextet_char s3 ∷ cs)
      ≡ emit_byte a (emit_byte b (b64decode_from 3 (s3 % 4) 0 cs))
two_bytes a b s3 cs ha hb h3 low =
    let s2 : ℕ = a % 4 * 16 + b / 16 in
    first_sextet (a / 4) (omega arith) 0 0 (sextet_char s2 ∷ sextet_char s3 ∷ cs)
    ∙ second_sextet s2 (omega arith) (a / 4) 0 (sextet_char s3 ∷ cs)
    ∙ ap (emit_byte (a / 4 * 4 + s2 / 16)) (third_sextet s3 h3 (s2 % 16) 0 cs)
    ∙ ap
        (λ (x : ℕ).
          emit_byte x (emit_byte (s2 % 16 * 16 + s3 / 4) (b64decode_from 3 (s3 % 4) 0 cs)))
        (omega arith)
    ∙ ap (λ (x : ℕ). emit_byte a (emit_byte x (b64decode_from 3 (s3 % 4) 0 cs)))
        (omega (arith, low))

-- The bytes of any length come back.
pub b64decode-b64encode : (bs : Bytes) → All IsByte bs → b64decode (b64encode bs) ≡ ok bs
unfolding b64decode b64encode emit_byte b64decode_from
b64decode-b64encode [] h = refl
b64decode-b64encode (a ∷ []) (ha, h) =
    first_sextet (a / 4) (omega arith) 0 0 (sextet_char (a % 4 * 16) ∷ b'=' ∷ b'=' ∷ [])
    ∙ second_sextet (a % 4 * 16) (omega arith) (a / 4) 0 (b'=' ∷ b'=' ∷ [])
    ∙ ap (λ (x : ℕ). ok (x ∷ [])) (omega arith)
b64decode-b64encode (a ∷ b ∷ []) (ha, (hb, h)) =
    two_bytes a b (b % 16 * 4) (b'=' ∷ []) ha hb (omega arith) (omega arith)
b64decode-b64encode (a ∷ b ∷ c ∷ rest) (ha, (hb, (hc, h))) =
    let s3 : ℕ = b % 16 * 4 + c / 64 in
    let cs = sextet_char (c % 64) ∷ b64encode rest in
    two_bytes a b s3 cs ha hb (omega arith) (omega arith)
    ∙ ap (λ r. emit_byte a (emit_byte b r))
        (fourth_sextet (c % 64) (omega arith) (s3 % 4) 0 (b64encode rest)
          ∙ ap (λ (x : ℕ). emit_byte x (b64decode_from 0 0 0 (b64encode rest))) (omega arith)
          ∙ ap (emit_byte c) (b64decode-b64encode rest h))
