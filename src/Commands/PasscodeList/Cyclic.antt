-- ===== src/Commands/PasscodeList/Cyclic.antt =====
-- The cyclic schedules of the passcode list, and what its parser raises.
use ttlock_ble.Base.{
  ℕ, ◌+◌, ◌≤◌, ◌<◌, ◌≡◌, refl, arith, ◌⊎◌, inl, inr, false, [], ◌∷◌, Option, none, some, length,
  slice, ltb, leb, ltb→le, Bool-cases,
}
use ttlock_ble.Base.Bytes.{Bytes, from_bytes}
use ttlock_ble.Commands.PasscodeList.{
  CyclicSchedule, PasscodeEntry, trailer_length_by_type, cyclic_base_selectors, base_selector,
  decode_cyclic_schedule, decode_date_or_raise, decode_validity, decode_entry, decode_item,
  decode_typed, parse_passcode_list_response,
}
use ttlock_ble.Commands.Raises.{
  IsParseError, RaisesOnly, RaisesOnly->>=, date_or_raise-raises, decode_ascii-raises,
}
use ttlock_ble.DateTime.{decode_date5}
use ttlock_ble.Encoding.{parse_response_status}
use ttlock_ble.Outcome.{ok, ◌>>=◌}
use ttlock_ble.Outcome.Access.{byte_at, byte_at-within}
use ttlock_ble.Text.{decode_ascii}

base_selector-range :
    (low : ℕ)
    → low < 256
    → ((base_selector cyclic_base_selectors low).0 ≤ low)
      × ((low < (base_selector cyclic_base_selectors low).0 + 24) ⊎ ((216 ≤ low) × (low < 232)))
unfolding base_selector cyclic_base_selectors
base_selector-range low h = ground arith

-- For a trailer of at least seven bytes the schedule is decoded: its hour and minute are the bytes
-- 3 and 4, and byte 6 is the base of the day or preset that is named plus the duration in hours
-- less one. The duration is at least 1, and at most 24 but for a byte 6 of 216 to 231, which no
-- base lies close below.
pub decode_cyclic_schedule-duration :
    (a b c hour minute d low : ℕ) (rest : Bytes)
    → low < 256
    → (schedule : CyclicSchedule) × (decode_cyclic_schedule
          (a ∷ b ∷ c ∷ hour ∷ minute ∷ d ∷ low ∷ rest)
        ≡ ok schedule)
      × (schedule.start_hour ≡ hour)
      × (schedule.start_minute ≡ minute)
      × (schedule.day_or_preset ≡ (base_selector cyclic_base_selectors low).1)
      × ((base_selector cyclic_base_selectors low).0 + schedule.duration_hours ≡ low + 1)
      × (1 ≤ schedule.duration_hours)
      × ((schedule.duration_hours ≤ 24) ⊎ ((216 ≤ low) × (low < 232)))
unfolding decode_cyclic_schedule byte_at
decode_cyclic_schedule-duration a b c hour minute d low rest h =
    let (above, below) = base_selector-range low h in
    (
      _,
      refl,
      refl,
      refl,
      refl,
      omega (arith, above),
      omega (arith, above),
      ground (arith, above, below),
    )

decode_date_or_raise-raises : (raw : Bytes) → RaisesOnly IsParseError (decode_date_or_raise raw)
unfolding decode_date_or_raise
decode_date_or_raise-raises raw = date_or_raise-raises (decode_date5 raw)

cyclic-raises : (t : Bytes) → 7 ≤ length t → RaisesOnly IsParseError (decode_cyclic_schedule t)
unfolding decode_cyclic_schedule byte_at RaisesOnly
cyclic-raises (a ∷ b ∷ c ∷ d ∷ e ∷ f ∷ g ∷ rest) h = tt
cyclic-raises _ h = absurd (omega arith)

validity-raises :
    (kind n : ℕ) (t : Bytes)
    → trailer_length_by_type kind ≡ some n
    → n ≤ length t
    → RaisesOnly IsParseError (decode_validity kind t)
unfolding decode_validity trailer_length_by_type RaisesOnly
validity-raises kind n t e h =
    let one = decode_date_or_raise-raises (slice 0 5 t) in
    let two = decode_date_or_raise-raises (slice 5 10 t) in
    let three : 7 ≤ length t → RaisesOnly IsParseError (decode_cyclic_schedule t) =
      cyclic-raises t in
    ground (arith, one, two, three)

entry-raises :
    (kind n : ℕ) (new_pwd trailer : Bytes)
    → trailer_length_by_type kind ≡ some n
    → RaisesOnly IsParseError (decode_entry kind n new_pwd trailer)
unfolding decode_entry IsParseError RaisesOnly
entry-raises kind n new_pwd trailer e = elim (Bool-cases (ltb (length trailer) n)) [
  | inl short ↦ rw short (inl refl)
  | inr fits ↦ rw fits (
      RaisesOnly->>= IsParseError (decode_validity kind trailer) _
        (validity-raises kind n trailer e (ltb→le _ _ fits))
        (λ valid _.
          RaisesOnly->>= IsParseError (decode_ascii new_pwd) _ (decode_ascii-raises new_pwd)
            (λ passcode _. tt)))
]

item-raises :
    (kind n : ℕ) (item : Bytes)
    → trailer_length_by_type kind ≡ some n
    → 4 ≤ length item
    → RaisesOnly IsParseError (decode_item kind n item)
unfolding decode_item RaisesOnly IsParseError byte_at
item-raises kind n (a ∷ b ∷ size ∷ d ∷ rest) e h =
    elim (Bool-cases (leb (length (a ∷ b ∷ size ∷ d ∷ rest)) (3 + size))) [
      | inl short ↦ rw short (inl refl)
      | inr fits ↦
          let item = a ∷ b ∷ size ∷ d ∷ rest in
          let (pwd_length, read) =
            byte_at-within item (3 + size) (within (length item) (3 + size) fits) in
          rw (fits, read) (entry-raises kind n _ _ e)
    ]
  where
    within : (m k : ℕ) → leb m k ≡ false → k < m
    within m k h = ground arith
item-raises kind n _ e h = absurd (omega arith)

typed-raises :
    (kind : ℕ) (o : Option ℕ) (item : Bytes)
    → trailer_length_by_type kind ≡ o
    → 4 ≤ length item
    → RaisesOnly IsParseError (decode_typed kind o item)
unfolding decode_typed RaisesOnly
typed-raises kind none item e h = tt
typed-raises kind (some n) item e h =
    RaisesOnly->>= IsParseError (decode_item kind n item) _ (item-raises kind n item e h)
      (λ _ _. tt)

pub parse_passcode_list_response-raises :
    (plain : Bytes) → RaisesOnly IsParseError (parse_passcode_list_response plain)
unfolding parse_passcode_list_response parse_response_status RaisesOnly IsParseError byte_at
parse_passcode_list_response-raises (echo ∷ status ∷ a ∷ b ∷ c ∷ d ∷ x ∷ kind ∷ y ∷ z ∷ rest) =
    let item = x ∷ kind ∷ y ∷ z ∷ rest in
    let h : RaisesOnly {A = Option PasscodeEntry × ℕ} IsParseError (
        decode_typed kind (trailer_length_by_type kind) item >>= λ entry.
        ok (entry, from_bytes (c ∷ d ∷ []))) =
      RaisesOnly->>= IsParseError (decode_typed kind (trailer_length_by_type kind) item) _
        (typed-raises kind _ item refl (omega arith)) (λ _ _. tt) in
    ground (arith, h)
parse_passcode_list_response-raises _ = ground arith
