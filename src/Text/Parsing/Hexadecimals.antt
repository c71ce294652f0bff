-- ===== src/Text/Parsing/Hexadecimals.antt =====
-- Hexadecimal numbers: `int(text, 16)` reads what `format(n, "X")` prints.
use ttlock_ble.Base.{
  ℕ, zero, suc, ◌+◌, ◌*◌, ◌/◌, ◌%◌, ◌<◌, ◌≡◌, refl, ap, ◌∙◌, arith, ltb, ◌==◌, Bool, true, false,
  Bool-cases, ltb→lt, ltb→le, [], ◌∷◌, All, inl, inr, some, ◌||◌,
}
use ttlock_ble.Text.{Text, pos, is_space}
use ttlock_ble.Text.Parsing.{
  hex_value, read_hex, read_prefixed, signed_hex, hex_int_of, map_option, upper_hex, upper_hex_onto,
  upper_hex_digit,
}
use ttlock_ble.Text.Strip.{IsSolid, strip-IsSolid}

IsUpperHex : Text → Type 0
IsUpperHex = All (λ c. (d : ℕ) × (d < 16) × (c ≡ upper_hex_digit d))

digit-solid : (d : ℕ) → d < 16 → is_space (upper_hex_digit d) ≡ false
unfolding upper_hex_digit is_space
digit-solid d h = ground arith

hex_value-digit : (d : ℕ) → d < 16 → hex_value (upper_hex_digit d) ≡ some d
unfolding upper_hex_digit hex_value
hex_value-digit d h = ground arith

unsigned :
    (d : ℕ) → d < 16 → ((upper_hex_digit d == b'-') ≡ false) × ((upper_hex_digit d == b'+') ≡ false)
unfolding upper_hex_digit
unsigned d h = ground arith

unprefixed : (d : ℕ) → d < 16 → (upper_hex_digit d == b'x' || upper_hex_digit d == b'X') ≡ false
unfolding upper_hex_digit
unprefixed d h = ground arith

IsUpperHex-IsSolid : (t : Text) → IsUpperHex t → IsSolid t
unfolding IsUpperHex IsSolid
IsUpperHex-IsSolid [] h = tt
IsUpperHex-IsSolid (c ∷ cs) ((d, p, e), h) = (rw e (digit-solid d p), IsUpperHex-IsSolid cs h)

upper_hex_onto-IsUpperHex :
    (fuel n : ℕ) (after : Text) → IsUpperHex after → IsUpperHex (upper_hex_onto fuel n after)
unfolding upper_hex_onto IsUpperHex
upper_hex_onto-IsUpperHex zero n after h = h
upper_hex_onto-IsUpperHex (suc fuel) n after h = elim (Bool-cases (ltb n 16)) [
  | inl e ↦ rw (upper_hex_onto, e) ((n % 16, omega arith, refl), h)
  | inr e ↦
      rw (upper_hex_onto, e)
        (upper_hex_onto-IsUpperHex fuel (n / 16) (upper_hex_digit (n % 16) ∷ after)
          ((n % 16, omega arith, refl), h))
]

read_digit :
    (b : Bool) (acc n : ℕ) (after : Text)
    → read_hex b acc (upper_hex_digit (n % 16) ∷ after) ≡ read_hex true (acc * 16 + n % 16) after
unfolding read_hex
read_digit true acc n after = rw (read_hex, hex_value-digit (n % 16) (omega arith)) refl
read_digit false acc n after = rw (read_hex, hex_value-digit (n % 16) (omega arith)) refl

read_upper_hex_onto :
    (fuel n : ℕ) (after : Text)
    → n < fuel
    → read_hex false 0 (upper_hex_onto fuel n after) ≡ read_hex true n after
unfolding upper_hex_onto
read_upper_hex_onto zero n after h = absurd (omega arith)
read_upper_hex_onto (suc fuel) n after h = elim (Bool-cases (ltb n 16)) [
  | inl e ↦
      rw (upper_hex_onto, e)
        (read_digit false 0 n after
          ∙ ap (λ (t : ℕ). read_hex true t after) (omega (arith, ltb→lt n 16 e)))
  | inr e ↦
      rw (upper_hex_onto, e)
        (read_upper_hex_onto fuel (n / 16) (upper_hex_digit (n % 16) ∷ after)
            (omega (arith, ltb→le n 16 e))
          ∙ read_digit true (n / 16) n after
          ∙ ap (λ (t : ℕ). read_hex true t after) (omega arith))
]

read_prefixed-IsUpperHex : (t : Text) → IsUpperHex t → read_prefixed t ≡ read_hex false 0 t
unfolding read_prefixed IsUpperHex read_hex
read_prefixed-IsUpperHex [] h = refl
read_prefixed-IsUpperHex (a ∷ []) h = refl
read_prefixed-IsUpperHex (a ∷ b ∷ cs) (p, ((d, q, e), h)) = not_prefixed (rw e (unprefixed d q))
  where
    not_prefixed :
        (b == b'x' || b == b'X') ≡ false
        → read_prefixed (a ∷ b ∷ cs) ≡ read_hex false 0 (a ∷ b ∷ cs)
    not_prefixed none_found = elim (Bool-cases (a == b'0')) [
      | inl first ↦ rw (first, none_found) refl
      | inr first ↦ rw first refl
    ]

signed_hex-IsUpperHex :
    (t : Text) → IsUpperHex t → signed_hex t ≡ map_option pos (read_hex false 0 t)
unfolding signed_hex IsUpperHex read_hex map_option
signed_hex-IsUpperHex [] h = refl
signed_hex-IsUpperHex (c ∷ cs) ((d, p, e), h) =
    rw (e, (unsigned d p).0, (unsigned d p).1)
      (ap (map_option pos) (read_prefixed-IsUpperHex (upper_hex_digit d ∷ cs) ((d, p, refl), h)))

-- `int(format(n, "X"), 16)` is `n`.
pub hex_int_of-upper_hex : (n : ℕ) → hex_int_of (upper_hex n) ≡ some (pos n)
unfolding hex_int_of upper_hex IsUpperHex map_option read_hex
hex_int_of-upper_hex n =
    let digits : IsUpperHex (upper_hex n) = upper_hex_onto-IsUpperHex (suc n) n [] tt in
    ap signed_hex (strip-IsSolid (upper_hex n) (IsUpperHex-IsSolid (upper_hex n) digits))
    ∙ signed_hex-IsUpperHex (upper_hex n) digits
    ∙ ap (map_option pos) (read_upper_hex_onto (suc n) n [] (omega arith))
