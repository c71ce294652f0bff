-- ===== src/Text/Numerals.antt =====
-- Decimal numbers: `int` reads what `str` prints, and two digits as the clock encoding prints them.
use ttlock_ble.Base.{
  ℕ, zero, suc, ◌+◌, ◌*◌, ◌/◌, ◌%◌, ◌<◌, ◌≡◌, refl, ap, ◌∙◌, arith, ltb, Bool, true, false,
  Bool-cases, ltb→lt, ltb→le, ◌==◌, [], ◌∷◌, All, inl, inr,
}
use ttlock_ble.Outcome.{ok}
use ttlock_ble.Text.{
  Text, pos, int_of, is_digit, is_space, decimal, decimal_onto, read_digits, signed, or_value_error,
}
use ttlock_ble.Text.Strip.{IsSolid, strip-IsSolid}

-- Two decimal digits are the number that they print.
pub int_of_two_digits :
    (n : ℕ) → n < 100 → int_of ((b'0' + n / 10) ∷ (b'0' + n % 10) ∷ []) ≡ ok (pos n)
unfolding int_of
int_of_two_digits n h = ground arith

unfoldable pub IsDecimal : Text → Type 0
IsDecimal = All (λ c. is_digit c ≡ true)

pub digit_range : (c : ℕ) → is_digit c ≡ true → (c < 128) × ((c == b',') ≡ false)
unfolding is_digit
digit_range c p = ground arith

digit-solid : (c : ℕ) → is_digit c ≡ true → is_space c ≡ false
unfolding is_digit is_space
digit-solid c p = ground arith

digit_char : (n : ℕ) → is_digit (b'0' + n % 10) ≡ true
unfolding is_digit
digit_char n = ground arith

IsDecimal-IsSolid : (t : Text) → IsDecimal t → IsSolid t
unfolding IsDecimal IsSolid
IsDecimal-IsSolid [] h = tt
IsDecimal-IsSolid (c ∷ cs) (p, h) = (digit-solid c p, IsDecimal-IsSolid cs h)

decimal_onto-IsDecimal :
    (fuel n : ℕ) (after : Text) → IsDecimal after → IsDecimal (decimal_onto fuel n after)
unfolding decimal_onto IsDecimal
decimal_onto-IsDecimal zero n after h = h
decimal_onto-IsDecimal (suc fuel) n after h = elim (Bool-cases (ltb n 10)) [
  | inl e ↦ rw (decimal_onto, e) (digit_char n, h)
  | inr e ↦
      rw (decimal_onto, e)
        (decimal_onto-IsDecimal fuel (n / 10) ((b'0' + n % 10) ∷ after) (digit_char n, h))
]

read_digit :
    (b : Bool) (acc n : ℕ) (after : Text)
    → read_digits b acc ((b'0' + n % 10) ∷ after) ≡ read_digits true (acc * 10 + n % 10) after
unfolding read_digits
read_digit true acc n after =
    rw (digit_char n) (ap (λ (t : ℕ). read_digits true (acc * 10 + t) after) (omega arith))
read_digit false acc n after =
    rw (digit_char n) (ap (λ (t : ℕ). read_digits true (acc * 10 + t) after) (omega arith))

read_decimal_onto :
    (fuel n : ℕ) (after : Text)
    → n < fuel
    → read_digits false 0 (decimal_onto fuel n after) ≡ read_digits true n after
unfolding decimal_onto
read_decimal_onto zero n after h = absurd (omega arith)
read_decimal_onto (suc fuel) n after h = elim (Bool-cases (ltb n 10)) [
  | inl e ↦
      rw (decimal_onto, e)
        (read_digit false 0 n after
          ∙ ap (λ (t : ℕ). read_digits true t after) (omega (arith, ltb→lt n 10 e)))
  | inr e ↦
      rw (decimal_onto, e)
        (read_decimal_onto fuel (n / 10) ((b'0' + n % 10) ∷ after) (omega (arith, ltb→le n 10 e))
          ∙ read_digit true (n / 10) n after
          ∙ ap (λ (t : ℕ). read_digits true t after) (omega arith))
]

unsigned : (c : ℕ) → is_digit c ≡ true → ((c == b'-') ≡ false) × ((c == b'+') ≡ false)
unfolding is_digit
unsigned c p = ground arith

signed-IsDecimal : (t : Text) → IsDecimal t → signed t ≡ or_value_error pos (read_digits false 0 t)
unfolding signed IsDecimal read_digits or_value_error
signed-IsDecimal [] h = refl
signed-IsDecimal (c ∷ cs) (p, h) = rw ((unsigned c p).0, (unsigned c p).1) refl

pub decimal-IsDecimal : (n : ℕ) → IsDecimal (decimal n)
unfolding decimal IsDecimal
decimal-IsDecimal n = decimal_onto-IsDecimal (suc n) n [] tt

-- `int(str(n))` is `n`.
pub int_of-decimal : (n : ℕ) → int_of (decimal n) ≡ ok (pos n)
unfolding int_of decimal IsDecimal or_value_error read_digits
int_of-decimal n =
    let digits = decimal-IsDecimal n in
    ap signed (strip-IsSolid (decimal n) (IsDecimal-IsSolid (decimal n) digits))
    ∙ signed-IsDecimal (decimal n) digits
    ∙ ap (or_value_error pos) (read_decimal_onto (suc n) n [] (omega arith))
