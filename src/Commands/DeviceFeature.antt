-- ===== src/Commands/DeviceFeature.antt =====
-- ttlock_ble/commands/device_feature.py and models/device_features.py: the capability bits.
pub mod Bits
use ttlock_ble.Base.{
  ℕ, zero, suc, ◌+◌, ◌*◌, ◌/◌, ◌%◌, ◌^◌, Bool, not, bit_or, [], length, slice, drop, ltb, ◌==◌,
}
use ttlock_ble.Base.Bytes.{Bytes, from_bytes}
use ttlock_ble.Encoding.{response_success, parse_response_status}
use ttlock_ble.Outcome.{Result, ok, value_error, runtime_error, refuse_if, ◌>>=◌, ◌>>◌}
use ttlock_ble.Outcome.Access.{byte_at}
use ttlock_ble.Text.{Text}
use ttlock_ble.Text.Parsing.{upper_hex}

pub record DeviceFeatures : Type 0 where
  pub mask : ℕ
  pub battery : ℕ

-- `self.mask >> feature & 1`
unfoldable pub supports : DeviceFeatures → ℕ → Bool
supports f feature = f.mask / 2 ^ feature % 2 == 1

unfoldable pub payload_search_device_feature : Bytes
payload_search_device_feature = []

-- The loop over the complete words, of which `left` are still to come.
unfoldable pub mask_after : Bytes → ℕ → ℕ → ℕ → ℕ
mask_after words zero index mask = mask
mask_after words (suc left) index mask =
    mask_after words left (index + 1)
      (bit_or mask (from_bytes (slice (index * 4) ((index + 1) * 4) words) * 2 ^ (32 * index)))

unfoldable pub parse_device_feature_response : Bytes → Result DeviceFeatures
unfolding parse_response_status byte_at mask_after
parse_device_feature_response plaintext = do
  (echo, status, content) ← parse_response_status plaintext
  refuse_if (not (status == response_success)) runtime_error
  refuse_if (ltb (length content) 5) value_error
  let words = drop 1 content
  battery ← byte_at content 0
  ok (record { mask = mask_after words (length words / 4) 0 0; battery = battery })

-- `feature_value`
unfoldable pub feature_value_of : DeviceFeatures → Text
unfolding upper_hex
feature_value_of f = upper_hex f.mask
