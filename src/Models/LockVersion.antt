-- ===== src/Models/LockVersion.antt =====
-- ttlock_ble/models/lock_version.py, and the calls of frame.py that need a lock or a key.
use ttlock_ble.Base.{ℕ, ◌&&◌, not, ◌==◌, if◌then◌else◌}
use ttlock_ble.Base.Bytes.{Bytes}
use ttlock_ble.Crypto.{Cipher, aes_encrypt, aes_decrypt}
use ttlock_ble.Frame.{Frame, encrypt_plain, encrypt_aes}
use ttlock_ble.Outcome.{Result, ok, ◌>>=◌}

pub record LockVersion : Type 0 where
  pub protocol_type : ℕ
  pub protocol_version : ℕ
  pub scene : ℕ
  pub group_id : ℕ
  pub org_id : ℕ

unfoldable pub lock_type : LockVersion → ℕ
lock_type v =
    let pt = v.protocol_type in
    let sv = v.protocol_version in
    let sc = v.scene in
    if pt == 5 && sv == 3 && sc == 7
    then 8
    else if pt == 10 && sv == 1
    then 6
    else if pt == 5 && sv == 3
    then 5
    else if pt == 5 && sv == 4
    then 4
    else if pt == 5 && sv == 1
    then 3
    else if pt == 11 && sv == 1
    then 7
    else 5

-- `Frame.for_lock`, with the default `encrypt`.
unfoldable pub for_lock : LockVersion → ℕ → Bytes → Frame
for_lock v command payload = record {
  protocol_type = v.protocol_type;
  sub_version = v.protocol_version;
  scene = v.scene;
  group_id = v.group_id;
  sub_org = v.org_id;
  command = command;
  encrypt = encrypt_plain;
  payload = payload;
}

module _ (c : Cipher) where
  -- The `encrypt` byte stays at 0xAA.
  unfoldable pub encrypt_data : Frame → Bytes → Result Frame
  encrypt_data f key = do
    sealed ← aes_encrypt c f.payload key
    ok (record f { encrypt = encrypt_plain; payload = sealed })

  unfoldable pub decrypt_data : Frame → Bytes → Result Bytes
  decrypt_data f key =
      if not (f.encrypt == encrypt_aes) then ok f.payload else aes_decrypt c f.payload key
