-- ===== src/Models/VirtualKey/RoundTrip.antt =====
-- The key cache: what `to_dict` writes, `from_dict` reads back.
use ttlock_ble.Base.{◌≡◌, refl, some}
use ttlock_ble.Json.{Value}
use ttlock_ble.Models.LockVersion.{LockVersion}
use ttlock_ble.Models.VirtualKey.{VirtualKey}
use ttlock_ble.Models.VirtualKey.Cache.{to_dict, from_dict, version_to_dict, version_from_dict}
use ttlock_ble.Outcome.{ok}
use ttlock_ble.Text.{Text}
use ttlock_ble.Text.Numerals.{int_of-decimal}

version_from_dict-to_dict :
    (repr : Value → Text) (v : LockVersion)
    → version_from_dict repr (version_to_dict v) ≡ ok (some v)
unfolding version_from_dict version_to_dict
version_from_dict-to_dict repr v =
    rw
      (
        int_of-decimal v.protocol_type,
        int_of-decimal v.protocol_version,
        int_of-decimal v.scene,
        int_of-decimal v.group_id,
        int_of-decimal v.org_id,
      )
      refl

-- Every key that `to_dict` wrote into the cache is read back by `from_dict`.
pub from_dict-to_dict :
    (repr : Value → Text) (k : VirtualKey) → from_dict repr (to_dict k) ≡ ok (some k)
unfolding from_dict to_dict
from_dict-to_dict repr k = rw (version_from_dict-to_dict repr k.lock_version) refl
