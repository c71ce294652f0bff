-- ===== src/Models/VirtualKey/Features.antt =====
-- The capability bits of a key (`has_feature`) against those that a lock reports (`supports`).
use ttlock_ble.Base.{ℕ, ◌%◌, ◌^◌, ◌≡◌, ap, ◌∙◌, none, some, Option}
use ttlock_ble.Commands.DeviceFeature.{DeviceFeatures, supports, feature_value_of}
use ttlock_ble.Models.VirtualKey.{VirtualKey, feature_mask, bit_of, has_feature}
use ttlock_ble.Text.{ℤ, pos, low_word}
use ttlock_ble.Text.Parsing.{hex_int_of}
use ttlock_ble.Text.Parsing.Hexadecimals.{hex_int_of-upper_hex}

-- A key whose feature value is the one that a lock reports has the features that the lock
-- supports, bit for bit.
pub has_feature-feature_value_of :
    (k : VirtualKey) (f : DeviceFeatures) (feature : ℕ)
    → k.feature_value ≡ feature_value_of f
    → has_feature k feature ≡ supports f feature
unfolding has_feature feature_mask supports feature_value_of bit_of
has_feature-feature_value_of k f feature h =
    ap
      (λ (o : Option ℤ).
        bit_of (elim o [ some v ↦ v | none ↦ pos (low_word k.special_value) ]) feature)
      (ap hex_int_of h ∙ hex_int_of-upper_hex f.mask)

-- With no hexadecimal feature value the low 32 bits of the special value decide, and the bits
-- above them are unset.
pub has_feature-special_value :
    (k : VirtualKey) (n feature : ℕ)
    → hex_int_of k.feature_value ≡ none
    → k.special_value ≡ pos n
    → has_feature k feature ≡ supports (record { mask = n % 2 ^ 32; battery = 0 }) feature
unfolding has_feature feature_mask supports bit_of low_word
has_feature-special_value k n feature h e =
    ap
      (λ (o : Option ℤ).
        bit_of (elim o [ some v ↦ v | none ↦ pos (low_word k.special_value) ]) feature)
      h
    ∙ ap (λ (v : ℤ). bit_of (pos (low_word v)) feature) e
