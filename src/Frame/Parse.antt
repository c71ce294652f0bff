-- ===== src/Frame/Parse.antt =====
-- `Frame.parse` on any bytes: what it accepts, and that it refuses the rest with `ValueError` alone.
use ttlock_ble.Base.{
  ℕ, zero, suc, ◌+◌, ◌-◌, ◌*◌, ◌/◌, ◌%◌, ◌≤◌, ◌<◌, ◌≡◌, refl, sym, ap, ◌∙◌, arith, [], ◌∷◌, ◌++◌,
  take, drop, length, ◌⊎◌, inl, inr, Bool-cases, ltb, ltb→lt, length-take, bit_or, All,
}
use mathlib.Core.Path.{subst}
use ttlock_ble.Base.Bits.{bit_or_byte_pair}
use ttlock_ble.Base.Bytes.{Bytes, IsByte}
use ttlock_ble.Frame.{Frame, body, parse}
use ttlock_ble.Frame.RoundTrip.{IsV3, IsLegacy, body-IsV3}
use ttlock_ble.Outcome.{ok, raised, Exn, value_error}

-- The length tests come before every index: no `IndexError` escapes.
pub parse_raises : (raw : Bytes) (e : Exn) → parse raw ≡ raised e → e ≡ value_error
unfolding parse
parse_raises (a ∷ b ∷ c ∷ d ∷ f ∷ g ∷ h ∷ i ∷ j ∷ k ∷ l ∷ m ∷ rest) e p = ground arith
parse_raises _ e p = ground arith

pair_split :
    (high low : ℕ)
    → high < 256
    → low < 256
    → (bit_or (high * 256) low < 65536)
      × (bit_or (high * 256) low / 256 % 256 ≡ high)
      × (bit_or (high * 256) low % 256 ≡ low)
pair_split high low p q = omega (arith, bit_or_byte_pair high low q)

take-append-drop : (n : ℕ) (xs : Bytes) → take n xs ++ drop n xs ≡ xs
take-append-drop zero xs = refl
take-append-drop (suc n) [] = refl
take-append-drop (suc n) (x ∷ xs) = ap (◌∷◌ x) (take-append-drop n xs)

-- The frame that `parse` makes of a modern header.
abbrev read_frame : (c d e g h i j k l : ℕ) → Bytes → Frame
read_frame c d e g h i j k l content = record {
  protocol_type = c;
  sub_version = d;
  scene = e;
  group_id = bit_or (g * 256) h;
  sub_org = bit_or (i * 256) j;
  command = k;
  encrypt = l;
  payload = content;
}

parse_shape :
    (a b c d e g h i j k l m : ℕ) (rest : Bytes) (f : Frame)
    → parse (a ∷ b ∷ c ∷ d ∷ e ∷ g ∷ h ∷ i ∷ j ∷ k ∷ l ∷ m ∷ rest) ≡ ok f
    → 5 ≤ f.protocol_type
    → (a ≡ 0x7f)
      × (b ≡ 0x5a)
      × (m ≤ length rest)
      × (f ≡ read_frame c d e g h i j k l (take (12 + m - 12) rest))
unfolding parse
parse_shape a b c d e g h i j k l m rest f p modern = ground arith

body-read_frame :
    (c d e g h i j k l m : ℕ) (rest : Bytes)
    → All IsByte (c ∷ d ∷ e ∷ g ∷ h ∷ i ∷ j ∷ k ∷ l ∷ m ∷ [])
    → 5 ≤ c
    → m ≤ length rest
    → let f = read_frame c d e g h i j k l (take m rest) in
      IsV3 f
      × (0x7f ∷ 0x5a ∷ c ∷ d ∷ e ∷ g ∷ h ∷ i ∷ j ∷ k ∷ l ∷ m ∷ rest ≡ body f ++ drop m rest)
      × (length f.payload ≡ m)
body-read_frame c d e g h i j k l m rest bytes modern fits =
    let size : length (take m rest) ≡ m = omega (arith, length-take {0} m rest) in
    let f = read_frame c d e g h i j k l (take m rest) in
    let v : IsV3 f = ground (arith, pair_split g h, pair_split i j, size) in
    (
      v,
      rw (body-IsV3 f v)
          (ground (arith, pair_split g h, pair_split i j, size, take-append-drop m rest)),
      size,
    )

parse-IsV3_sound :
    (raw : Bytes) (f : Frame)
    → All IsByte raw
    → parse raw ≡ ok f
    → 5 ≤ f.protocol_type
    → IsV3 f × (raw ≡ body f ++ drop (12 + length f.payload) raw)
parse-IsV3_sound (a ∷ b ∷ c ∷ d ∷ e ∷ g ∷ h ∷ i ∷ j ∷ k ∷ l ∷ m ∷ rest) f bytes p modern =
    let (ea, eb, fits, shape) = parse_shape a b c d e g h i j k l m rest f p modern in
    let cut : 12 + m - 12 ≡ m = omega arith in
    let shape' : f ≡ read_frame c d e g h i j k l (take m rest) =
      shape ∙ ap (λ (n : ℕ). read_frame c d e g h i j k l (take n rest)) cut in
    let modern' : 5 ≤ c = ground arith in
    let (v, eq, size) = body-read_frame c d e g h i j k l m rest (omega arith) modern' fits in
    let count : 12 + length (take m rest)
        ≡ suc (suc (suc (suc (suc (suc (suc (suc (suc (suc (suc (suc m))))))))))) =
      omega (arith, size) in
    subst
      (λ (f : Frame).
        IsV3 f
        × (a ∷ b ∷ c ∷ d ∷ e ∷ g ∷ h ∷ i ∷ j ∷ k ∷ l ∷ m ∷ rest
            ≡ body f
              ++ drop (12 + length f.payload)
                  (a ∷ b ∷ c ∷ d ∷ e ∷ g ∷ h ∷ i ∷ j ∷ k ∷ l ∷ m ∷ rest)))
      (sym shape') (v, rw (ea, eb, count) eq)
parse-IsV3_sound _ f bytes p modern = absurd (unfold parse in ground arith)

-- The frame that `parse` makes of a short header.
abbrev read_short : (c k l : ℕ) → Bytes → Frame
read_short c k l content = record {
  protocol_type = c;
  sub_version = 0;
  scene = 0;
  group_id = 0;
  sub_org = 0;
  command = k;
  encrypt = l;
  payload = content;
}

short_shape :
    (a b c k l m : ℕ) (rest : Bytes) (f : Frame)
    → parse (a ∷ b ∷ c ∷ k ∷ l ∷ m ∷ rest) ≡ ok f
    → f.protocol_type < 5
    → (a ≡ 0x7f) × (b ≡ 0x5a) × (m ≤ length rest) × (f ≡ read_short c k l (take (6 + m - 6) rest))
unfolding parse
short_shape a b c k l m rest f p old = ground arith

body-read_short :
    (c k l m : ℕ) (rest : Bytes)
    → All IsByte (c ∷ k ∷ l ∷ m ∷ [])
    → c < 5
    → m ≤ length rest
    → let f = read_short c k l (take m rest) in
      IsLegacy f
      × (0x7f ∷ 0x5a ∷ c ∷ k ∷ l ∷ m ∷ rest ≡ body f ++ drop m rest)
      × (length f.payload ≡ m)
unfolding body
body-read_short c k l m rest bytes old fits =
    let size : length (take m rest) ≡ m = omega (arith, length-take {0} m rest) in
    let f = read_short c k l (take m rest) in
    let v : IsLegacy f = ground (arith, size) in
    (v, ground (arith, size, take-append-drop m rest), size)

-- The fields that a short header does not carry.
unfoldable pub IsBare : Frame → Type 0
IsBare f = (f.sub_version ≡ 0) × (f.scene ≡ 0) × (f.group_id ≡ 0) × (f.sub_org ≡ 0)

parse-IsLegacy_sound :
    (raw : Bytes) (f : Frame)
    → All IsByte raw
    → parse raw ≡ ok f
    → f.protocol_type < 5
    → IsLegacy f × IsBare f × (raw ≡ body f ++ drop (6 + length f.payload) raw)
unfolding IsBare
parse-IsLegacy_sound (a ∷ b ∷ c ∷ k ∷ l ∷ m ∷ rest) f bytes p old =
    let (ea, eb, fits, shape) = short_shape a b c k l m rest f p old in
    let cut : 6 + m - 6 ≡ m = omega arith in
    let shape' : f ≡ read_short c k l (take m rest) =
      shape ∙ ap (λ (n : ℕ). read_short c k l (take n rest)) cut in
    let old' : c < 5 = ground arith in
    let (v, eq, size) = body-read_short c k l m rest (omega arith) old' fits in
    let count : 6 + length (take m rest) ≡ suc (suc (suc (suc (suc (suc m))))) =
      omega (arith, size) in
    subst
      (λ (f : Frame).
        IsLegacy f
        × IsBare f
        × (a ∷ b ∷ c ∷ k ∷ l ∷ m ∷ rest
            ≡ body f ++ drop (6 + length f.payload) (a ∷ b ∷ c ∷ k ∷ l ∷ m ∷ rest)))
      (sym shape') (v, (refl, refl, refl, refl), rw (ea, eb, count) eq)
parse-IsLegacy_sound _ f bytes p old = absurd (unfold parse in ground arith)

-- A frame that `parse` accepts fits the wire in its generation, and the bytes begin with its body:
-- parsing loses nothing but the CRC. A frame of the short header has the other fields zero.
pub parse_sound :
    (raw : Bytes) (f : Frame)
    → All IsByte raw
    → parse raw ≡ ok f
    → (IsV3 f × (raw ≡ body f ++ drop (12 + length f.payload) raw))
      ⊎ (IsLegacy f × IsBare f × (raw ≡ body f ++ drop (6 + length f.payload) raw))
parse_sound raw f bytes p = elim (Bool-cases (ltb f.protocol_type 5)) [
  | inl e ↦ inr (parse-IsLegacy_sound raw f bytes p (ltb→lt f.protocol_type 5 e))
  | inr e ↦ inl (parse-IsV3_sound raw f bytes p (ground (arith, e)))
]
