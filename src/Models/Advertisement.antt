-- ===== src/Models/Advertisement.antt =====
-- ttlock_ble/models/lock_advertisement.py: lock state from an advertisement.
pub mod Total
use ttlock_ble.Base.{
  ℕ, ◌+◌, ◌-◌, ◌/◌, ◌%◌, ◌^◌, Bool, ◌&&◌, ◌||◌, ◌∷◌, Option, none, some, length, drop, ltb, ◌==◌,
  if◌then◌else◌,
}
use ttlock_ble.Base.Bytes.{Bytes}
use ttlock_ble.Commands.Control.{LockState, locked, unlocked}
use ttlock_ble.Encoding.{decode_mac6}
use ttlock_ble.Models.LockVersion.{LockVersion, lock_type}
use ttlock_ble.Outcome.{Result, ok, ◌>>=◌}
use ttlock_ble.Outcome.Access.{byte_at}
use ttlock_ble.Text.{Text, upper}

-- A flag bit: `flags & (1 << i)` is not zero.
abbrev pub flag : ℕ → ℕ → Bool
flag flags i = flags / 2 ^ i % 2 == 1

pub record LockAdvertisement : Type 0 where
  pub protocol_type : ℕ
  pub protocol_version : ℕ
  pub scene : ℕ
  pub lock_state : Option LockState
  pub has_new_records : Bool
  pub is_setting_mode : Bool
  pub is_dormant : Bool
  pub battery : ℕ
  pub lock_mac : Text

unfoldable pub decode_lock_state : ℕ → Option LockState
decode_lock_state flags =
    if flag flags 4 then none else if flag flags 0 then some unlocked else some locked

-- The fields behind the header: `protocol_type` to `scene`, and where the flags stand.
unfoldable pub advertised : Bytes → ℕ → ℕ → ℕ → ℕ → Result (Option LockAdvertisement)
unfolding byte_at decode_lock_state lock_type
advertised raw protocol_type protocol_version scene flags_offset =
    let version : LockVersion = record {
      protocol_type = protocol_type;
      protocol_version = protocol_version;
      scene = scene;
      group_id = 0;
      org_id = 0;
    } in
    let stateful = (do
      flags ← byte_at raw flags_offset
      battery ← byte_at raw (flags_offset + 1)
      ok (
          some (record {
            protocol_type = protocol_type;
            protocol_version = protocol_version;
            scene = scene;
            lock_state = decode_lock_state flags;
            has_new_records = flag flags 1;
            is_setting_mode = flag flags 2;
            is_dormant = flag flags 4;
            battery = battery;
            lock_mac = upper (decode_mac6 (drop (length raw - 6) raw));
          }))) in
    if ltb protocol_type 5 || lock_type version == 3 then ok none else stateful

-- `company_id` is the key of bleak's manufacturer data, below 65536.
unfoldable pub from_manufacturer_data : ℕ → Bytes → Result (Option LockAdvertisement)
unfolding advertised
from_manufacturer_data company_id payload =
    let raw = company_id % 256 ∷ company_id / 256 ∷ payload in
    let first = company_id % 256 in
    let second = company_id / 256 in
    let v3 = (do scene ← byte_at raw 2; advertised raw 5 3 scene 3) in
    let other = (do
      protocol_type ← byte_at raw 4
      protocol_version ← byte_at raw 5
      scene ← byte_at raw 7
      advertised raw protocol_type protocol_version scene 8) in
    if ltb (length raw) 15
    then ok none
    else if first == 18 && second == 25 || first == 0xff && second == 0xff
    then ok none
    else if first == 5 && second == 3
    then v3
    else other
