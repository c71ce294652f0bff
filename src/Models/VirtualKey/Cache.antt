-- ===== src/Models/VirtualKey/Cache.antt =====
-- `to_dict` and `from_dict` of ttlock_ble/models/virtual_key.py: the entries of keys.json.
use ttlock_ble.Base.{Bool, true, false, not, ◌&&◌, ◌||◌, List, [], ◌∷◌, Option, none, some}
use ttlock_ble.Base.Bytes.{equal}
use ttlock_ble.Json.{Value, Members, integer, text, object, empty, member, get, get_item}
use ttlock_ble.Models.LockVersion.{LockVersion}
use ttlock_ble.Models.VirtualKey.{VirtualKey, as_mapping, to_int, version_of}
use ttlock_ble.Outcome.{Result, ok, raised, type_error, refuse_if, ◌>>=◌, ◌>>◌}
use ttlock_ble.Text.{Text, pos, codes}

unfoldable pub version_to_dict : LockVersion → Value
version_to_dict v = object (
    member (codes "protocolType") (integer (pos v.protocol_type)) (
      member (codes "protocolVersion") (integer (pos v.protocol_version)) (
        member (codes "scene") (integer (pos v.scene)) (
          member (codes "groupId") (integer (pos v.group_id))
            (member (codes "orgId") (integer (pos v.org_id)) empty)))))

-- `to_dict`
unfoldable pub to_dict : VirtualKey → Members
unfolding version_to_dict
to_dict k = member (codes "keyId") (integer k.key_id) (
    member (codes "lockId") (integer k.lock_id) (
      member (codes "lockMac") (text k.lock_mac) (
        member (codes "lockAlias") (text k.lock_alias) (
          member (codes "lockName") (text k.lock_name) (
            member (codes "lockVersion") (version_to_dict k.lock_version) (
              member (codes "aesKeyStr") (text k.aes_key_str) (
                member (codes "unlockKey") (text k.unlock_key) (
                  member (codes "lockFlagPos") (integer k.lock_flag_pos) (
                    member (codes "timezoneRawOffSet") (integer k.timezone_raw_off_set) (
                      member (codes "startTime") (integer k.start_time) (
                        member (codes "endTime") (integer k.end_time) (
                          member (codes "keyType") (integer k.key_type) (
                            member (codes "userType") (text k.user_type) (
                              member (codes "adminPs") (text k.admin_ps) (
                                member (codes "keyboardPwdVersion") (integer k.keyboard_pwd_version)
                                  (member (codes "specialValue") (integer k.special_value) (
                                    member (codes "featureValue") (text k.feature_value)
                                      (member (codes "uid") (integer k.uid) empty))))))))))))))))))

-- The fields of the dataclass but `lockVersion`, in order, with their defaults.
abbrev fields : List (Text × Option Value)
fields =
    (codes "keyId", none)
    ∷ (codes "lockId", none)
    ∷ (codes "lockMac", none)
    ∷ (codes "lockAlias", none)
    ∷ (codes "lockName", none)
    ∷ (codes "aesKeyStr", none)
    ∷ (codes "unlockKey", none)
    ∷ (codes "lockFlagPos", none)
    ∷ (codes "timezoneRawOffSet", none)
    ∷ (codes "startTime", some (integer (pos 0)))
    ∷ (codes "endTime", some (integer (pos 0)))
    ∷ (codes "keyType", some (integer (pos 0)))
    ∷ (codes "userType", some (text []))
    ∷ (codes "adminPs", some (text []))
    ∷ (codes "keyboardPwdVersion", some (integer (pos 0)))
    ∷ (codes "specialValue", some (integer (pos 0)))
    ∷ (codes "featureValue", some (text []))
    ∷ (codes "uid", some (integer (pos 0)))
    ∷ []

is_named : Text → List (Text × Option Value) → Bool
unfolding equal
is_named key [] = false
is_named key ((name, default) ∷ rest) = equal key name || is_named key rest

-- Whether a keyword is a field.
all_known : Members → Bool
unfolding equal is_named
all_known empty = true
all_known (member key v ms) =
    (equal key (codes "lockVersion") || is_named key fields) && all_known ms

given_or : Option Value → Option Value → Result Value
given_or (some v) default = ok v
given_or none (some v) = ok v
given_or none none = raised type_error

-- The arguments in the order of the fields: a missing one without a default is a `TypeError`.
arguments : List (Text × Option Value) → Members → Result (List Value)
unfolding get given_or
arguments [] ms = ok []
arguments ((name, default) ∷ rest) ms = do
  v ← given_or (get name ms) default
  vs ← arguments rest ms
  ok (v ∷ vs)

-- `none` for a value that has not the type of its field, which Python stores as it is.
unfoldable pub key_of : LockVersion → List Value → Option VirtualKey
key_of v
      (integer key_id
        ∷ integer lock_id
        ∷ text lock_mac
        ∷ text lock_alias
        ∷ text lock_name
        ∷ text aes_key_str
        ∷ text unlock_key
        ∷ integer lock_flag_pos
        ∷ integer timezone_raw_off_set
        ∷ integer start_time
        ∷ integer end_time
        ∷ integer key_type
        ∷ text user_type
        ∷ text admin_ps
        ∷ integer keyboard_pwd_version
        ∷ integer special_value
        ∷ text feature_value
        ∷ integer uid
        ∷ []) =
    some (record {
      key_id = key_id;
      lock_id = lock_id;
      lock_mac = lock_mac;
      lock_alias = lock_alias;
      lock_name = lock_name;
      lock_version = v;
      aes_key_str = aes_key_str;
      unlock_key = unlock_key;
      lock_flag_pos = lock_flag_pos;
      timezone_raw_off_set = timezone_raw_off_set;
      start_time = start_time;
      end_time = end_time;
      key_type = key_type;
      user_type = user_type;
      admin_ps = admin_ps;
      keyboard_pwd_version = keyboard_pwd_version;
      special_value = special_value;
      feature_value = feature_value;
      uid = uid;
    })
key_of _ _ = none

key_of_version : Option LockVersion → List Value → Option VirtualKey
unfolding key_of
key_of_version none values = none
key_of_version (some v) values = key_of v values

module _ (repr : Value → Text) where
  unfoldable pub version_from_dict : Value → Result (Option LockVersion)
  unfolding as_mapping get_item to_int version_of
  version_from_dict raw = do
    ms ← as_mapping raw
    v ← get_item (codes "protocolType") ms
    protocol_type ← to_int repr v (pos 0)
    v ← get_item (codes "protocolVersion") ms
    protocol_version ← to_int repr v (pos 0)
    v ← get_item (codes "scene") ms
    scene ← to_int repr v (pos 0)
    v ← get_item (codes "groupId") ms
    group_id ← to_int repr v (pos 0)
    v ← get_item (codes "orgId") ms
    org_id ← to_int repr v (pos 0)
    ok (version_of protocol_type protocol_version scene group_id org_id)

  -- `from_dict`
  unfoldable pub from_dict : Members → Result (Option VirtualKey)
  unfolding get_item version_from_dict all_known arguments key_of_version
  from_dict ms = do
    raw ← get_item (codes "lockVersion") ms
    version ← version_from_dict raw
    refuse_if (not (all_known ms)) type_error
    values ← arguments fields ms
    ok (key_of_version version values)
