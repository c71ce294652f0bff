-- ===== src/Examples/Entries.antt =====
-- Tests of the entries that the lists of passcodes, cards and fingerprints give.
use ttlock_ble.Base.{◌≡◌, refl, Bool, true, false, [], ◌∷◌, ◌++◌, Option, none, some}
use ttlock_ble.Base.Bytes.{Bytes}
use ttlock_ble.Commands.Card.{parse_card_list_response}
use ttlock_ble.Commands.Card
use ttlock_ble.Commands.Fingerprint.{start_date_sentinel, end_date_sentinel, date_unless}
use ttlock_ble.Commands.Fingerprint
use ttlock_ble.Commands.PasscodeList.{CyclicSchedule, PasscodeEntry, end_hour}
use ttlock_ble.Commands.PasscodeList
use ttlock_ble.DateTime.{decode_date5, days_in_month}
use ttlock_ble.Outcome.{Result, ok, ◌>>=◌}
use ttlock_ble.Text.{codes}

-- The answer for a card with a four-byte id and these dates.
abbrev card_answer : Bytes → Bytes → Bytes
card_answer start_date end_date =
    (0x05 ∷ 1 ∷ 90 ∷ 1 ∷ 0 ∷ 1 ∷ 7 ∷ 8 ∷ 9 ∷ 10 ∷ []) ++ (start_date ++ end_date)

abbrev read_card : Bytes → Bytes → Result (Option (Bool × Bool))
read_card start_date end_date =
    parse_card_list_response (card_answer start_date end_date) >>= λ card.
    ok (elim card [ none ↦ none | some c ↦ some (Card.is_permanent c, Card.has_explicit_start c) ])

permanent_card : read_card start_date_sentinel end_date_sentinel ≡ ok (some (true, false))
unfolding parse_card_list_response date_unless decode_date5 days_in_month Card.is_permanent
    Card.has_explicit_start
permanent_card = refl

timed_card :
    read_card (24 ∷ 2 ∷ 28 ∷ 8 ∷ 0 ∷ []) (24 ∷ 2 ∷ 29 ∷ 8 ∷ 0 ∷ []) ≡ ok (some (false, true))
unfolding parse_card_list_response date_unless decode_date5 days_in_month Card.is_permanent
    Card.has_explicit_start
timed_card = refl

-- A card whose end is the 30th of February is taken for a permanent one.
misdated_card :
    read_card (24 ∷ 2 ∷ 28 ∷ 8 ∷ 0 ∷ []) (24 ∷ 2 ∷ 30 ∷ 8 ∷ 0 ∷ []) ≡ ok (some (true, true))
unfolding parse_card_list_response date_unless decode_date5 days_in_month Card.is_permanent
    Card.has_explicit_start
misdated_card = refl

abbrev fingerprint : Fingerprint.FingerprintEntry
fingerprint = record { fingerprint_id = 1 ∷ []; slot = 2; start_date = none; end_date = none }

fingerprint_dates :
    (Fingerprint.is_permanent fingerprint ≡ true)
    × (Fingerprint.has_explicit_start fingerprint ≡ false)
unfolding Fingerprint.is_permanent Fingerprint.has_explicit_start
fingerprint_dates = (refl, refl)

-- From ten in the evening for three hours.
abbrev night : CyclicSchedule
night = record {
  day_or_preset = codes "Monday";
  start_hour = 22;
  start_minute = 0;
  duration_hours = 3;
}

night_ends : end_hour night ≡ 1
unfolding end_hour
night_ends = refl

abbrev cyclic_entry : PasscodeEntry
cyclic_entry = record {
  passcode = codes "123456";
  pwd_type = 4;
  start_date = none;
  end_date = none;
  cyclic_schedule = some night;
}

cyclic_is_permanent : PasscodeList.is_permanent cyclic_entry ≡ false
unfolding PasscodeList.is_permanent
cyclic_is_permanent = refl
