-- ===== src/Models/VirtualKey.antt =====
-- ttlock_ble/models/virtual_key.py, and `LockVersion.parse` of lock_version.py: keys from the cloud,
-- and their capability bits. The key cache is in Cache.
pub mod Cache
pub mod Features
pub mod RoundTrip
use ttlock_ble.Base.{
  ℕ, ◌+◌, ◌-◌, ◌/◌, ◌%◌, ◌^◌, Bool, true, false, not, ◌&&◌, ◌||◌, List, [], ◌∷◌, Option, none, some,
  ◌==◌, if◌then◌else◌,
}
use ttlock_ble.Base.Bytes.{equal}
use ttlock_ble.Crypto.Keys.{decode_password}
use ttlock_ble.Json.{
  Value, Members, null, integer, text, object, empty, member, get, get_or, get_item, or_else,
  str_of, int_of_str,
}
use ttlock_ble.Models.LockVersion.{LockVersion}
use ttlock_ble.Outcome.{Result, ok, raised, type_error, refuse_if, ◌>>=◌, ◌>>◌}
use ttlock_ble.Text.{Text, ℤ, pos, negsuc, codes, low_word}
use ttlock_ble.Text.Parsing.{hex_int_of}

pub record VirtualKey : Type 0 where
  pub key_id : ℤ
  pub lock_id : ℤ
  pub lock_mac : Text
  pub lock_alias : Text
  pub lock_name : Text
  pub lock_version : LockVersion
  pub aes_key_str : Text
  pub unlock_key : Text
  pub lock_flag_pos : ℤ
  pub timezone_raw_off_set : ℤ
  pub start_time : ℤ
  pub end_time : ℤ
  pub key_type : ℤ
  pub user_type : Text
  pub admin_ps : Text
  pub keyboard_pwd_version : ℤ
  pub special_value : ℤ
  pub feature_value : Text
  pub uid : ℤ

-- `none` stands for a number below zero, which this LockVersion does not hold.
unfoldable pub version_of : ℤ → ℤ → ℤ → ℤ → ℤ → Option LockVersion
version_of (pos protocol_type) (pos protocol_version) (pos scene) (pos group_id) (pos org_id) =
    some (record {
      protocol_type = protocol_type;
      protocol_version = protocol_version;
      scene = scene;
      group_id = group_id;
      org_id = org_id;
    })
version_of _ _ _ _ _ = none

-- The dictionary that `data[...]` reads; other values cannot be indexed by a string.
unfoldable pub as_mapping : Value → Result Members
as_mapping (object ms) = ok ms
as_mapping _ = raised type_error

-- `_to_int`
unfoldable pub to_int : (Value → Text) → Value → ℤ → Result ℤ
unfolding int_of_str
to_int repr null default = ok default
to_int repr (text []) default = ok default
to_int repr v default = int_of_str repr v

map_version : (LockVersion → VirtualKey) → Option LockVersion → Option VirtualKey
map_version f none = none
map_version f (some v) = some (f v)

-- `repr` prints lists and dictionaries, `loads` is `json.loads`.
module _ (repr : Value → Text) (loads : Text → Result Value) where
  -- `LockVersion.parse`
  unfoldable pub parse_lock_version : Value → Result (Option LockVersion)
  unfolding version_of as_mapping get_item get_or int_of_str
  parse_lock_version raw = do
    value ← (elim raw [ text t ↦ loads t | other ↦ ok other ])
    ms ← as_mapping value
    v ← get_item (codes "protocolType") ms
    protocol_type ← int_of_str repr v
    v ← get_item (codes "protocolVersion") ms
    protocol_version ← int_of_str repr v
    v ← get_item (codes "scene") ms
    scene ← int_of_str repr v
    group_id ← int_of_str repr (get_or (codes "groupId") (integer (pos 0)) ms)
    org_id ← int_of_str repr (get_or (codes "orgId") (integer (pos 0)) ms)
    ok (version_of protocol_type protocol_version scene group_id org_id)

  str_or_empty : Text → Members → Text
  str_or_empty key ms = str_of repr (get_or key (text []) ms)

  int_or_zero : Text → Members → Result ℤ
  int_or_zero key ms = to_int repr (get_or key (integer (pos 0)) ms) (pos 0)

  int_item : Text → Members → Result ℤ
  int_item key ms = do v ← get_item key ms; to_int repr v (pos 0)

  str_item : Text → Members → Result Text
  str_item key ms = do v ← get_item key ms; ok (str_of repr v)

  -- The `lockKey` field or what stands in for it, and the admin field.
  unfoldable pub lock_key_field : Members → Value
  lock_key_field ms = or_else (get_or (codes "lockKey") null ms) (
      or_else (get_or (codes "noKeyPwd") null ms)
        (or_else (get_or (codes "unlockKey") null ms) (text [])))

  unfoldable pub admin_field : Members → Value
  admin_field ms =
      or_else (get_or (codes "adminPwd") null ms)
        (or_else (get_or (codes "adminPs") null ms) (text []))

  -- `VirtualKey.from_cloud`; `none` for a lock version with a number below zero.
  unfoldable pub from_cloud : Members → ℤ → Result (Option VirtualKey)
  unfolding get_item get_or int_item int_or_zero str_item str_or_empty map_version
  from_cloud payload uid = do
    lock_version_raw ← get_item (codes "lockVersion") payload
    key_id ← int_item (codes "keyId") payload
    lock_id ← int_item (codes "lockId") payload
    lock_mac ← str_item (codes "lockMac") payload
    version ← parse_lock_version lock_version_raw
    aes_key_str ← str_item (codes "aesKeyStr") payload
    unlock_key ← decode_password (str_of repr (lock_key_field payload))
    lock_flag_pos ← int_or_zero (codes "lockFlagPos") payload
    timezone_raw_off_set ← int_or_zero (codes "timezoneRawOffSet") payload
    start_time ← int_or_zero (codes "startDate") payload
    end_time ← int_or_zero (codes "endDate") payload
    key_type ← int_or_zero (codes "keyType") payload
    admin_ps ← decode_password (str_of repr (admin_field payload))
    keyboard_pwd_version ← int_or_zero (codes "keyboardPwdVersion") payload
    special_value ← int_or_zero (codes "specialValue") payload
    let of_version : LockVersion → VirtualKey = λ v. record {
      key_id = key_id;
      lock_id = lock_id;
      lock_mac = lock_mac;
      lock_alias = str_or_empty (codes "lockAlias") payload;
      lock_name = str_or_empty (codes "lockName") payload;
      lock_version = v;
      aes_key_str = aes_key_str;
      unlock_key = unlock_key;
      lock_flag_pos = lock_flag_pos;
      timezone_raw_off_set = timezone_raw_off_set;
      start_time = start_time;
      end_time = end_time;
      key_type = key_type;
      user_type = str_or_empty (codes "userType") payload;
      admin_ps = admin_ps;
      keyboard_pwd_version = keyboard_pwd_version;
      special_value = special_value;
      feature_value = str_of repr (or_else (get_or (codes "featureValue") null payload) (text []));
      uid = uid;
    }
    ok (map_version of_version version)

abbrev user_type_admin : Text
user_type_admin = codes "110301"

unfoldable pub is_admin : VirtualKey → Bool
unfolding equal
is_admin k = equal k.user_type user_type_admin

-- `feature_mask`
unfoldable pub feature_mask : VirtualKey → ℤ
unfolding hex_int_of low_word
feature_mask k = elim (hex_int_of k.feature_value) [
  | some v ↦ v
  | none ↦ pos (low_word k.special_value)
]

-- `mask >> feature & 1`; -(n + 1) has the bits that n lacks.
unfoldable pub bit_of : ℤ → ℕ → Bool
bit_of (pos n) feature = n / 2 ^ feature % 2 == 1
bit_of (negsuc n) feature = not (n / 2 ^ feature % 2 == 1)

-- `has_feature`
unfoldable pub has_feature : VirtualKey → ℕ → Bool
unfolding bit_of feature_mask
has_feature k feature = bit_of (feature_mask k) feature
