-- ===== src/Commands/DeviceFeature/Bits.antt =====
-- The views of ttlock_ble/models/device_features.py on the mask: named and unnamed bits.
pub mod Partition
use ttlock_ble.Base.{
  ℕ, zero, suc, ◌+◌, ◌/◌, Bool, true, false, not, ◌&&◌, ◌||◌, List, [], ◌∷◌, ◌==◌, if◌then◌else◌,
}
use ttlock_ble.Commands.DeviceFeature.{DeviceFeatures, supports}
use ttlock_ble.Models.LockFeature.{LockFeature, bit, members}

supported : DeviceFeatures → List LockFeature → List LockFeature
supported f [] = []
supported f (m ∷ ms) = let rest = supported f ms in if supports f (bit m) then m ∷ rest else rest

-- `known`
unfoldable pub known : DeviceFeatures → List LockFeature
unfolding supported
known f = supported f members

-- Whether some of the features has this bit.
unfoldable pub has_bit : ℕ → List LockFeature → Bool
has_bit b [] = false
has_bit b (m ∷ ms) = b == bit m || has_bit b ms

-- `mask.bit_length()`: how often a number can be halved; `n` rounds are enough.
halvings : ℕ → ℕ → ℕ
halvings zero n = 0
halvings (suc fuel) n = elim (n == 0) [ true ↦ 0 | false ↦ suc (halvings fuel (n / 2)) ]

unfoldable pub bit_length : ℕ → ℕ
unfolding halvings
bit_length n = halvings n n

-- The bits from `bit` on, of which `left` are still to come.
unnamed_from : DeviceFeatures → ℕ → ℕ → List ℕ
unfolding has_bit
unnamed_from f bit zero = []
unnamed_from f bit (suc left) =
    let rest = unnamed_from f (bit + 1) left in
    if supports f bit && not (has_bit bit members) then bit ∷ rest else rest

-- `unnamed_bits`
unfoldable pub unnamed_bits : DeviceFeatures → List ℕ
unfolding unnamed_from bit_length
unnamed_bits f = unnamed_from f 0 (bit_length f.mask)

unfoldable pub is_in : ℕ → List ℕ → Bool
is_in b [] = false
is_in b (x ∷ xs) = b == x || is_in b xs
