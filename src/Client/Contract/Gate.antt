-- ===== src/Client/Contract/Gate.antt =====
-- The admin-gated commands: their gate, and their error contract.
use ttlock_ble.Base.{
  ℕ, ◌^◌, ◌<◌, ◌≡◌, refl, inl, arith, ap, Bool, true, false, length, All, if◌then◌else◌,
}
use ttlock_ble.Base.Bytes.{Bytes, IsByte}
use ttlock_ble.Client.Act.{Act, Session, continue, ◌>>=◌, lift, pure, raise}
use ttlock_ble.Client.Contract.{
  IsContract, Keeps, admin-IsByte, built-Keeps, >>=-Keeps, fold_parse-Keeps, require_success-Keeps,
  round_trip-Keeps,
}
use ttlock_ble.Client.Core.{Client, admin_steps, admin_handshake}
use ttlock_ble.Commands.Raises.{
  RaisesOnly, admin-raises, auto_lock-raises, limits-raises, sound-raises, feature-raises,
}
use ttlock_ble.Commands.Session.Layout.{
  word-IsByte, payload_check_admin-layout, payload_check_random-layout,
}
use ttlock_ble.Crypto.{CipherLaws}
use ttlock_ble.Opcodes.{
  cmd_check_admin, cmd_check_random, cmd_auto_lock_manage, cmd_manage_keyboard_password,
  cmd_set_lock_sound, cmd_search_device_feature,
}
use ttlock_ble.Client.Control.{calibrate_time}
use ttlock_ble.Client.Lists.{get_passcodes, get_fingerprints, get_cards}
use ttlock_ble.Client.Settings.{
  auto_lock_round_trip, auto_lock_exchange, keyboard_password_exchange, get_auto_lock_time,
  get_auto_lock_limits, clear_passcodes, get_lock_sound, set_lock_sound, get_device_features,
  get_device_properties,
}
use ttlock_ble.Commands.AutoLock.{payload_auto_lock_search}
use ttlock_ble.Commands.DeviceFeature.{payload_search_device_feature}
use ttlock_ble.Commands.LockSound.{payload_get_lock_sound, payload_set_lock_sound}
use ttlock_ble.Commands.Passcode.{payload_passcode_clear}
use ttlock_ble.DateTime.{DateTime}
use ttlock_ble.Outcome.{Result, ok, raised, tt_lock_error}
use ttlock_ble.Text.{ℤ, pos, int_of, is_decimal}

-- The act raises `TTLockError` and leaves the link as it was: nothing is sent.
Refuses : {A : Type 0} → Act A → Type 0
Refuses m = (s : Session) → m s ≡ (raised tt_lock_error, s)

>>=-Refuses : {A B : Type 0} (m : Act A) (f : A → Act B) → Refuses m → Refuses (m >>= f)
unfolding Refuses
>>=-Refuses m f h s = ap (continue f) (h s)

pure-Keeps : {A : Type 0} (a : A) → Keeps (pure a)
unfolding Keeps RaisesOnly
pure-Keeps a s = tt

search-IsByte : All IsByte payload_auto_lock_search
unfolding payload_auto_lock_search
search-IsByte = omega arith

clear-IsByte : All IsByte payload_passcode_clear
unfolding payload_passcode_clear
clear-IsByte = omega arith

sound-IsByte : All IsByte payload_get_lock_sound
unfolding payload_get_lock_sound
sound-IsByte = omega arith

switch-IsByte : (enabled : Bool) → All IsByte (payload_set_lock_sound enabled)
unfolding payload_set_lock_sound
switch-IsByte true = omega arith
switch-IsByte false = omega arith

feature-IsByte : All IsByte payload_search_device_feature
unfolding payload_search_device_feature
feature-IsByte = tt

-- The commands that run the admin handshake before any other exchange.
pub AllRefuse : Client → Type 0
AllRefuse c =
    ((t : DateTime) → Refuses (calibrate_time c t))
    × Refuses (get_auto_lock_time c)
    × Refuses (get_auto_lock_limits c)
    × Refuses (clear_passcodes c)
    × Refuses (get_passcodes c)
    × Refuses (get_fingerprints c)
    × Refuses (get_cards c)
    × Refuses (get_lock_sound c)
    × ((enabled : Bool) → Refuses (set_lock_sound c enabled))
    × Refuses (get_device_features c)
    × Refuses (get_device_properties c)

module _ (c : Client) where
  admin_handshake-Refuses : is_decimal c.key.admin_ps ≡ false → Refuses (admin_handshake c)
  unfolding admin_handshake Refuses
  admin_handshake-Refuses h s =
      ap (λ (b : Bool). (if b then admin_steps c else raise tt_lock_error) s) h

  -- Without a numeric admin password each of these commands raises `TTLockError` and leaves the link
  -- as it was: nothing is sent, and no turn of the link is used.
  pub gated-Refuse : is_decimal c.key.admin_ps ≡ false → AllRefuse c
  unfolding AllRefuse calibrate_time get_auto_lock_time get_auto_lock_limits clear_passcodes
      get_passcodes get_fingerprints get_cards get_lock_sound set_lock_sound get_device_features
      get_device_properties auto_lock_exchange auto_lock_round_trip keyboard_password_exchange
  gated-Refuse h =
      let gate = admin_handshake-Refuses h in
      (
        λ t. >>=-Refuses _ _ gate,
        >>=-Refuses _ _ (>>=-Refuses _ _ (>>=-Refuses _ _ gate)),
        >>=-Refuses _ _ (>>=-Refuses _ _ gate),
        >>=-Refuses _ _ gate,
        >>=-Refuses _ _ gate,
        >>=-Refuses _ _ gate,
        >>=-Refuses _ _ gate,
        >>=-Refuses _ _ gate,
        λ enabled. >>=-Refuses _ _ gate,
        >>=-Refuses _ _ gate,
        >>=-Refuses _ _ gate,
      )

module _ (c : Client) (laws : CipherLaws c.cipher) (key_fits : length c.key.aes_key ≡ 16)
    (uid_fits : c.key.uid < 2 ^ 32) (k : ℤ) (unlock_key : int_of c.key.unlock_key ≡ ok k)
    (secret : ℕ) (admin_ps : int_of c.key.admin_ps ≡ ok (pos secret))
    (secret_fits : secret < 2 ^ 32) where
  built :
      {A : Type 0} (r : Result Bytes) (payload : Bytes) (m : Bytes → Act A)
      → r ≡ ok payload
      → Keeps (m payload)
      → Keeps (lift r >>= m)
  built = built-Keeps c laws key_fits uid_fits k unlock_key

  admin_steps-Keeps : Keeps (admin_steps c)
  unfolding admin_steps
  admin_steps-Keeps =
      built _ _ _
        (payload_check_admin-layout c.key.uid secret c.key.lock_flag_pos c.key.admin_ps admin_ps
          secret_fits uid_fits)
        (>>=-Keeps _ _
          (round_trip-Keeps c laws key_fits cmd_check_admin _
            (admin-IsByte secret c.key.lock_flag_pos c.key.uid))
          (λ plain. >>=-Keeps _ _ (fold_parse-Keeps _ (admin-raises plain)) (λ ps.
            built _ _ _ (payload_check_random-layout ps c.key.unlock_key k unlock_key) (
              >>=-Keeps _ _ (round_trip-Keeps c laws key_fits cmd_check_random _ (word-IsByte _))
                require_success-Keeps))))

  admin_handshake-Keeps : Keeps (admin_handshake c)
  unfolding admin_handshake Keeps RaisesOnly IsContract
  admin_handshake-Keeps s = either (is_decimal c.key.admin_ps)
    where
      either :
          (b : Bool)
          → RaisesOnly IsContract ((if b then admin_steps c else raise tt_lock_error) s).0
      either true = admin_steps-Keeps s
      either false = inl refl

  -- The same client with an admin password of 32 bits: these gated commands raise nothing but
  -- `TTLockError`, or the failed assertion of a link that is not connected.
  pub gated-Keep :
      Keeps (get_auto_lock_time c)
      × Keeps (get_auto_lock_limits c)
      × Keeps (clear_passcodes c)
      × Keeps (get_lock_sound c)
      × ((enabled : Bool) → Keeps (set_lock_sound c enabled))
      × Keeps (get_device_features c)
  unfolding get_auto_lock_time get_auto_lock_limits clear_passcodes get_lock_sound set_lock_sound
      get_device_features auto_lock_exchange auto_lock_round_trip keyboard_password_exchange
  gated-Keep =
      let gate = admin_handshake-Keeps in
      let trip = round_trip-Keeps c laws key_fits in
      (
        >>=-Keeps _ _
            (>>=-Keeps _ _
              (>>=-Keeps _ _ gate
                (λ _. trip cmd_auto_lock_manage payload_auto_lock_search search-IsByte))
              (λ plain. fold_parse-Keeps _ (auto_lock-raises plain)))
            (λ _. pure-Keeps _),
        >>=-Keeps _ _
            (>>=-Keeps _ _ gate
              (λ _. trip cmd_auto_lock_manage payload_auto_lock_search search-IsByte))
            (λ plain. fold_parse-Keeps _ (limits-raises plain)),
        >>=-Keeps _ _ gate (λ _.
            >>=-Keeps _ _ (trip cmd_manage_keyboard_password payload_passcode_clear clear-IsByte)
              require_success-Keeps),
        >>=-Keeps _ _ gate (λ _.
            >>=-Keeps _ _ (trip cmd_set_lock_sound payload_get_lock_sound sound-IsByte)
              (λ plain. fold_parse-Keeps _ (sound-raises plain))),
        λ enabled. >>=-Keeps _ _ gate (λ _.
            >>=-Keeps _ _
              (trip cmd_set_lock_sound (payload_set_lock_sound enabled) (switch-IsByte enabled))
              require_success-Keeps),
        >>=-Keeps _ _ gate (λ _.
            >>=-Keeps _ _
              (trip cmd_search_device_feature payload_search_device_feature feature-IsByte)
              (λ plain. fold_parse-Keeps _ (feature-raises plain))),
      )
